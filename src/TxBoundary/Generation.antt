-- ===== src/TxBoundary/Generation.antt =====
-- The boundary that the counts sink by.
use composable_centauri.Base.{ℕ, ◌≡◌, some, arith}
use composable_centauri.Base.Int.{ℤ}
use composable_centauri.Base.Bytes.{Bytes}
use composable_centauri.Kv.{Kv}
use composable_centauri.Sdk.{Sdk}
use composable_centauri.TxBoundary.Keeper.{
  Boundary, State, get_delegate_boundary, get_redelegate_boundary, update_limit_per_addr,
  get_limit_per_addr, regenerate, set_limit_per_addr, increment_redelegate_count,
}
use composable_centauri.TxBoundary.Ante.{valid_redelegate_msg}

module _ ⦃sdk : Sdk⦄ ⦃kv : Kv⦄ where
  -- The blocks per generation of the redelegation boundary are never read: with any other number
  -- there, a redelegation has the same result and leaves the same counts.
  pub valid_redelegate_msg-generation :
      (h : ℤ) (addr : Bytes) (e : Boundary) (n : ℕ) (s : State)
      → s.redelegate_boundary ≡ some e
      → let other = record s {
        redelegate_boundary = some (record e { blocks_per_generation = n });
      } in
        ((valid_redelegate_msg h addr other).0 ≡ (valid_redelegate_msg h addr s).0)
        × ((valid_redelegate_msg h addr other).1.limits ≡ (valid_redelegate_msg h addr s).1.limits)
  unfolding valid_redelegate_msg get_redelegate_boundary get_delegate_boundary update_limit_per_addr
      get_limit_per_addr regenerate set_limit_per_addr increment_redelegate_count
  valid_redelegate_msg-generation h addr e n s bound = (ground arith, ground arith)
