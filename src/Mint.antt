-- ===== src/Mint.antt =====
-- x/mint: the tokens that a block distributes.
pub mod Minter
pub mod Bounds
pub mod Params
pub mod Keeper
pub mod Reach
pub mod Payment
mod Samples
