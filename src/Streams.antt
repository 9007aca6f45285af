-- ===== src/Streams.antt =====
-- internal/controller/stream: the reconciler of the Stream resource.
pub mod Ports
pub mod Forward
pub mod Reconcile
pub mod Watches
