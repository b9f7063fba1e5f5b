-- ===== src/Device.antt =====
-- internal/device: what a device remembers, and the commands of its fleet server.
pub mod Identity
pub mod Syncer
pub mod Commands
