-- ===== src/Staking.antt =====
-- x/stakingmiddleware and custom/staking: validator updates and unbonding in epochs of blocks.
pub mod Params
pub mod Keeper
pub mod Queues
pub mod Epochs
mod Samples
