-- ===== src/Manifest.antt =====
-- internal/manifest: what the server and the device say to one another.
pub mod Name
