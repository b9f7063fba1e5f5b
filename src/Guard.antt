-- ===== src/Guard.antt =====
-- internal/httpguard: the limiter of login attempts and the store of logged-in browsers.
pub mod Limiter
pub mod Sessions
