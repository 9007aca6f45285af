-- ===== src/Controller.antt =====
-- internal/controller: what the reconcilers share.
pub mod Resources
pub mod Reflection
pub mod Helpers
pub mod Upstream
pub mod Certificates
pub mod Secrets
pub mod Watches
pub mod NoDeletion
pub mod ReadOnly
pub mod Sending
pub mod Fetching
pub mod StatusUpdate
pub mod TokenSearch
pub mod CertificateSource
pub mod PodAddresses
pub mod UpstreamNames
pub mod Settling
unfoldable pub use Reflection.*
unfoldable pub use Helpers.*
unfoldable pub use Upstream.*
unfoldable pub use Certificates.*
unfoldable pub use Secrets.*
