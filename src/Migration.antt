-- ===== src/Migration.antt =====
-- bech32-migration: the change of the address prefix in the stores.
pub mod Addresses
pub mod Codec
pub mod Stores
pub mod Allowed
pub mod Modules
pub mod Staking
pub mod Gov
pub mod Wasm
mod Samples
