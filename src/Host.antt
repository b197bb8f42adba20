-- ===== src/Host.antt =====
-- The transaction host (miden-tx/src/host).
pub mod Tracker
pub mod Events
pub mod Procedures
pub mod Created
pub mod Handlers
