-- ===== src/Npm.antt =====
-- pkg/nginxpm: the client of the Nginx Proxy Manager API.
pub mod Types
pub mod Answers
pub mod Requests
pub mod Certificates
pub mod LetsEncrypt
pub mod CustomCertificates
pub mod ProxyHosts
pub mod Streams
pub mod AccessLists
pub mod CustomFields
pub mod NoDeletion
pub mod ReadOnly
pub mod Sending
pub mod Inversion
pub mod Settling
pub mod Deletion
unfoldable pub use Types.*
unfoldable pub use Answers.*
unfoldable pub use Requests.*
unfoldable pub use Certificates.*
unfoldable pub use LetsEncrypt.*
unfoldable pub use CustomCertificates.*
unfoldable pub use ProxyHosts.*
unfoldable pub use Streams.*
unfoldable pub use AccessLists.*
