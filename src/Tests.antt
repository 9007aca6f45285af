-- ===== src/Tests.antt =====
-- A small world in which the theorems are applied to concrete resources.
mod World
mod Hosts
mod Forwarding
mod Others
mod Certificates
mod Watches
