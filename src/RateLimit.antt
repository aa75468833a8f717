-- ===== src/RateLimit.antt =====
-- x/ratelimit: limits on what may leave and enter the chain on an IBC channel within a quota period.
pub mod State
pub mod Quota
pub mod Keys
pub mod Keeper
pub mod Packet
pub mod Epoch
pub mod Msgs
pub mod Genesis
pub mod Query
pub mod Middleware
pub mod Invariant
mod Samples
