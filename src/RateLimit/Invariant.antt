-- ===== src/RateLimit/Invariant.antt =====
-- What holds of every stored limit, and that every operation of x/ratelimit keeps it.
pub mod Limits
pub mod Good
pub mod Packets
pub mod Governance
pub mod Resets
pub mod Epochs
pub mod Reach
