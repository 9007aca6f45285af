-- ===== src/Api.antt =====
-- The custom resources of api/v1, and the parts of the Kubernetes objects that the program reads.
mod Meta
mod Tokens
mod ProxyHosts
mod Streams
mod AccessLists
mod Certificates
mod Core
pub use Meta.*
pub use Tokens.*
pub use ProxyHosts.*
pub use Streams.*
pub use AccessLists.*
pub use Certificates.*
pub use Core.*
