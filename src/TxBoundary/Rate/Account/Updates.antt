-- ===== src/TxBoundary/Rate/Account/Updates.antt =====
-- What a message of an account finds and writes: its entry after the update that the message begins
-- with (x/tx-boundary/keeper/keeper.go).
use composable_centauri.Base.{ℕ, suc, ◌<◌, ◌^◌, ◌==◌, ◌≡◌, some, arith, if◌then◌else◌, ltb}
use composable_centauri.Base.Int.{pos}
use composable_centauri.Base.Bytes.{Bytes, eq_bytes_refl}
use composable_centauri.Base.Exec.{ok, err}
use composable_centauri.Kv.{Kv}
use composable_centauri.Sdk.{Sdk}
use composable_centauri.TxBoundary.Keeper.{
  Boundary, State, delegate_denied, redelegate_denied, next_uint64, update_limit_per_addr,
  get_limit_per_addr, set_limit_per_addr, increment_delegate_count, increment_redelegate_count,
  get_delegate_boundary, get_redelegate_boundary,
}
use composable_centauri.TxBoundary.Ante.{valid_delegate_msg, valid_redelegate_msg}
use composable_centauri.TxBoundary.Rate.{settled, limit, Leaks, update-found}

module _ ⦃sdk : Sdk⦄ ⦃kv : Kv⦄ where
  -- The entry of an account and the boundaries.
  pub record Holds (a : Bytes) (b e : Boundary) (c r m : ℕ) (s : State) : Type 0 where
    pub found : kv.get a s.limits ≡ some (limit c r m)
    pub bound : s.delegate_boundary ≡ some b
    pub rebound : s.redelegate_boundary ≡ some e

  pub delegate-updated :
      (h : ℕ) (addr a : Bytes) (b : Boundary) (u s : State)
      → s.delegate_boundary ≡ some b
      → sdk.acc_address_from_bech32 addr ≡ some a
      → update_limit_per_addr (pos h) a s ≡ (ok tt, u)
      → 0 < b.tx_limit
      → valid_delegate_msg (pos h) addr s ≡ (
          if ltb (get_limit_per_addr a u).delegate_count b.tx_limit
          then (ok tt, increment_delegate_count (pos h) a u)
          else (err delegate_denied, u))
  unfolding valid_delegate_msg get_delegate_boundary
  delegate-updated h addr a b u s bound account updated positive = ground arith

  pub redelegate-updated :
      (h : ℕ) (addr a : Bytes) (e : Boundary) (u s : State)
      → s.redelegate_boundary ≡ some e
      → sdk.acc_address_from_bech32 addr ≡ some a
      → update_limit_per_addr (pos h) a s ≡ (ok tt, u)
      → valid_redelegate_msg (pos h) addr s ≡ (
          if e.tx_limit == 0
          then (ok tt, u)
          else if ltb (get_limit_per_addr a u).reledegate_count e.tx_limit
          then (ok tt, increment_redelegate_count (pos h) a u)
          else (err redelegate_denied, u))
  unfolding valid_redelegate_msg get_redelegate_boundary
  redelegate-updated h addr a e u s bound account updated = ground arith

  pub incremented :
      (h c r m : ℕ) (a : Bytes) (b e : Boundary) (s : State)
      → Holds a b e c r m s
      → Holds a b e (next_uint64 c) r m (increment_delegate_count (pos h) a s)
        × Holds a b e c (next_uint64 r) m (increment_redelegate_count (pos h) a s)
  unfolding increment_delegate_count increment_redelegate_count set_limit_per_addr
  incremented h c r m a b e s k = (
    record {
      found =
          ground
            (arith, k.found, kv.get-set a a (limit (next_uint64 c) r m) s.limits, eq_bytes_refl a);
      bound = ground (arith, k.found, k.bound);
      rebound = ground (arith, k.found, k.rebound);
    },
    record {
      found =
          ground
            (arith, k.found, kv.get-set a a (limit c (next_uint64 r) m) s.limits, eq_bytes_refl a);
      bound = ground (arith, k.found, k.bound);
      rebound = ground (arith, k.found, k.rebound);
    },
  )

  -- The state after the update that a message begins with.
  pub updated :
      (h c r m : ℕ) (a : Bytes) (b e : Boundary) (s : State)
      → Holds a b e c r m s
      → 0 < m
      → 0 < b.blocks_per_generation
      → (k : Leaks b m h c (settled h b (limit c r m)))
      → (u : State) × (update_limit_per_addr (pos h) a s ≡ (ok tt, u))
        × Holds a b e k.count k.recount k.block u
  updated h c r m a b e s holds positive generation k =
      let (done, found, bound, rebound) =
        update-found h c r m a b s holds.found holds.bound positive generation in
      let u : State = (update_limit_per_addr (pos h) a s).1 in
      (
        u,
        ground arith,
        record { found = ground (arith, found, k.same); bound = bound; rebound = ground arith },
      )

  pub next_uint64-small : (n l : ℕ) → n < l → l < 2 ^ 64 → next_uint64 n ≡ suc n
  unfolding next_uint64
  next_uint64-small n l h k = omega arith

  pub holds-count :
      (a : Bytes) (b e : Boundary) (c r m : ℕ) (s : State)
      → Holds a b e c r m s
      → get_limit_per_addr a s ≡ limit c r m
  unfolding get_limit_per_addr
  holds-count a b e c r m s k = ground (arith, k.found)
