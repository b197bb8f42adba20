-- ===== src/Accounts.antt =====
-- Accounts (objects/src/accounts).
pub mod Id
pub mod Seed
pub mod Slot
pub mod Delta
pub mod Storage
pub mod Account
