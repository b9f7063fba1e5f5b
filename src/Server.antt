-- ===== src/Server.antt =====
-- The parts of the fleet server (internal/server).
pub mod Admin
pub mod Calls
pub mod Commands
pub mod Enroll
pub mod Heartbeat
pub mod Rows
pub mod Table
