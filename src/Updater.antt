-- ===== src/Updater.antt =====
-- internal/updater: which release is newer, and how the device takes it.
pub mod Version
pub mod Install
pub mod Apply
pub mod Offers
pub mod Loop
