-- ===== src/TxBoundary.antt =====
-- x/tx-boundary: a bound on the delegations and redelegations of an account.
pub mod Keeper
pub mod Ante
pub mod Rate
pub mod Generation
mod Samples
