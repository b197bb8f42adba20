-- ===== src/Assets.antt =====
-- Assets (objects/src/assets).
pub mod Fungible
pub mod NonFungible
pub mod Value
pub mod Vault
pub mod Symbol
