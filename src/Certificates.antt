-- ===== src/Certificates.antt =====
-- The reconcilers of the certificates that the operator creates on the instance.
pub mod Reconcile
pub mod Watches
pub mod LetsEncrypt
pub mod Custom
