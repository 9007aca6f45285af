-- ===== src/ProxyHosts.antt =====
-- internal/controller/proxyhost: the reconciler of the ProxyHost resource.
pub mod InitialConfig
pub mod Ports
pub mod Forward
pub mod Domains
pub mod References
pub mod Apply
pub mod Reconcile
pub mod Watches
pub mod NoDeletion
