-- ===== src/TransferMiddleware.antt =====
-- x/transfermiddleware: the registry of the tokens that the parachain bridge carries, and the
-- relay that exchanges them.
pub mod Registry
pub mod Keeper
pub mod Host
pub mod Ledger
pub mod Exchange
pub mod Relay
pub mod Ics4Wrapper
pub mod Middleware
pub mod Genesis
pub mod Query
pub mod Relayers
pub mod Consistency
pub mod Removal
mod Samples
