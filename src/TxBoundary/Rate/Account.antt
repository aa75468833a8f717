-- ===== src/TxBoundary/Rate/Account.antt =====
-- One account's delegations and redelegations over any number of blocks.
pub mod Updates
use composable_centauri.Base.{
  ℕ, suc, ◌+◌, ◌-◌, ◌*◌, ◌≤◌, ◌<◌, ◌^◌, ◌==◌, ◌≡◌, refl, inl, inr, ◌⊎◌, Bool, true, false, some,
  List, [], ◌∷◌, arith, Bool-cases, if◌then◌else◌, ltb,
}
use composable_centauri.Base.Int.{pos}
use composable_centauri.Base.Bytes.{Bytes, eq_bytes_refl}
use composable_centauri.Base.Exec.{Result, ok, err}
use composable_centauri.Kv.{Kv}
use composable_centauri.Sdk.{Sdk}
use composable_centauri.TxBoundary.Keeper.{
  Boundary, State, Error, delegate_denied, redelegate_denied, next_uint64, update_limit_per_addr,
  get_limit_per_addr, set_limit_per_addr, increment_delegate_count, increment_redelegate_count,
  get_delegate_boundary, get_redelegate_boundary,
}
use composable_centauri.TxBoundary.Ante.{valid_delegate_msg, valid_redelegate_msg}
use composable_centauri.TxBoundary.Rate.{
  settled, limit, Leaks, settled-Leaks, update-found, product_le, product_suc,
}
use composable_centauri.TxBoundary.Rate.Account.Updates.{
  Holds, delegate-updated, redelegate-updated, incremented, updated, holds-count, next_uint64-small,
}

module _ ⦃sdk : Sdk⦄ ⦃kv : Kv⦄ where
  -- A delegation is let through exactly if the count after the update is below the limit.
  delegate-outcome :
      (h c r m : ℕ) (addr a : Bytes) (b e : Boundary) (s : State)
      → sdk.acc_address_from_bech32 addr ≡ some a
      → Holds a b e c r m s
      → 0 < m
      → 0 < b.blocks_per_generation
      → 0 < b.tx_limit
      → b.tx_limit < 2 ^ 64
      → (k : Leaks b m h c (settled h b (limit c r m)))
      → let (result, t) = valid_delegate_msg (pos h) addr s in
        ((result ≡ ok tt) × (k.count < b.tx_limit) × Holds a b e (suc k.count) k.recount k.block t)
        ⊎ ((result ≡ err delegate_denied)
            × (b.tx_limit ≤ k.count)
            × Holds a b e k.count k.recount k.block t)
  delegate-outcome h c r m addr a b e s account holds positive generation some_limit word k =
      let (u, done, after) = updated h c r m a b e s holds positive generation k in
      elim (below_or_not k.count b.tx_limit) [
        | inl below ↦
            rw
              (
                delegate-updated h addr a b u s holds.bound account done some_limit,
                holds-count a b e k.count k.recount k.block u after,
                below.1,
              )
              (inl (
                refl,
                below.0,
                rw (← next_uint64-small k.count b.tx_limit below.0 word)
                    (incremented h k.count k.recount k.block a b e u after).0,
              ))
        | inr full ↦
            rw
              (
                delegate-updated h addr a b u s holds.bound account done some_limit,
                holds-count a b e k.count k.recount k.block u after,
                full.1,
              )
              (inr (refl, full.0, after))
      ]
    where
      below_or_not : (x l : ℕ) → ((x < l) × (ltb x l ≡ true)) ⊎ ((l ≤ x) × (ltb x l ≡ false))
      below_or_not x l = ground arith

  -- A redelegation leaves the count of delegations as the update left it.
  redelegate-outcome :
      (h c r m : ℕ) (addr a : Bytes) (b e : Boundary) (s : State)
      → sdk.acc_address_from_bech32 addr ≡ some a
      → Holds a b e c r m s
      → 0 < m
      → 0 < b.blocks_per_generation
      → (k : Leaks b m h c (settled h b (limit c r m)))
      → (r' : ℕ) × Holds a b e k.count r' k.block (valid_redelegate_msg (pos h) addr s).1
  redelegate-outcome h c r m addr a b e s account holds positive generation k =
      let (u, done, after) = updated h c r m a b e s holds positive generation k in
      rw (redelegate-updated h addr a e u s holds.rebound account done)
        (elim (Bool-cases (e.tx_limit == 0)) [
          | inl unlimited ↦ rw unlimited (k.recount, after)
          | inr limited ↦
              elim (Bool-cases (ltb (get_limit_per_addr a u).reledegate_count e.tx_limit)) [
                | inl below ↦
                    rw (limited, below)
                      (
                        next_uint64 k.recount,
                        (incremented h k.count k.recount k.block a b e u after).1,
                      )
                | inr full ↦ rw (limited, full) (k.recount, after)
              ]
        ])

  -- The account's messages, each at a block height: a delegation where the flag is true, else a
  -- redelegation. The number of delegations that are let through.
  abbrev counted : Result Error (Unit {0}) → ℕ → ℕ
  counted (ok _) n = suc n
  counted (err _) n = n

  pub accepted : Bytes → List (ℕ × Bool) → State → ℕ
  accepted addr [] s = 0
  accepted addr ((h, true) ∷ l) s =
      let (result, t) = valid_delegate_msg (pos h) addr s in counted result (accepted addr l t)
  accepted addr ((h, false) ∷ l) s = accepted addr l (valid_redelegate_msg (pos h) addr s).1

  -- The heights do not go down, from one to another.
  abbrev pub AreOrdered : ℕ → ℕ → List (ℕ × Bool) → Type 0
  AreOrdered from to [] = from ≤ to
  AreOrdered from to ((h, d) ∷ l) = (from ≤ h) × AreOrdered h to l

  AreOrdered-le : (from to : ℕ) (l : List (ℕ × Bool)) → AreOrdered from to l → from ≤ to
  AreOrdered-le from to [] o = o
  AreOrdered-le from to ((h, d) ∷ l) o = omega (arith, AreOrdered-le h to l o.1)

  AreOrdered-lower :
      (low from to : ℕ) (l : List (ℕ × Bool))
      → low ≤ from
      → AreOrdered from to l
      → AreOrdered low to l
  AreOrdered-lower low from to [] h o = omega arith
  AreOrdered-lower low from to ((n, d) ∷ l) h o = (omega (arith, o.0), o.1)

  module _ (addr a : Bytes) (b e : Boundary) (to : ℕ) where
    -- Over the blocks from an account's last update to any later one, with heights that do not go
    -- down and stay below 2 ^ 62 like the blocks per generation, a limit and a generation that are not
    -- zero and a count within the limit, the delegations let through are at most what the limit still
    -- had free and one for each generation of blocks, whatever redelegations come between.
    pub accepted-rate :
        (l : List (ℕ × Bool)) (c r m : ℕ) (s : State)
        → sdk.acc_address_from_bech32 addr ≡ some a
        → 0 < b.tx_limit
        → b.tx_limit < 2 ^ 64
        → 0 < b.blocks_per_generation
        → b.blocks_per_generation < 2 ^ 62
        → to < 2 ^ 62
        → 0 < m
        → c ≤ b.tx_limit
        → AreOrdered m to l
        → Holds a b e c r m s
        → b.blocks_per_generation * accepted addr l s + b.blocks_per_generation * c
          ≤ b.blocks_per_generation * b.tx_limit + (to - m)
    unfolding accepted
    accepted-rate [] c r m s account some_limit word generation short late positive free o holds =
        omega (arith, product_le b.blocks_per_generation c b.tx_limit free)
    accepted-rate ((h, true) ∷ l) c r m s account some_limit word generation short late positive
          free o holds =
        let h_le : h ≤ to = AreOrdered-le h to l o.1 in
        let k = settled-Leaks m h c r b o.0 (omega arith) generation short in
        let rest = AreOrdered-lower k.block h to l k.before o.1 in
        let t : State = (valid_delegate_msg (pos h) addr s).1 in
        let positive_then : 0 < k.block = omega (arith, k.after) in
        elim (delegate-outcome h c r m addr a b e s account holds positive generation some_limit
          word k) [
            | inl (passed, below, after) ↦ rw passed (
                omega (
                  arith,
                  k.rate,
                  k.after,
                  k.before,
                  AreOrdered-le h to l o.1,
                  product_suc b.blocks_per_generation k.count,
                  product_suc b.blocks_per_generation (accepted addr l t),
                  accepted-rate l (suc k.count) k.recount k.block t account some_limit word
                      generation short late positive_then (omega (arith, below)) rest after,
                ))
            | inr (denied, full, after) ↦ rw denied (
                omega (
                  arith,
                  k.rate,
                  k.after,
                  k.before,
                  AreOrdered-le h to l o.1,
                  accepted-rate l k.count k.recount k.block t account some_limit word generation
                      short late positive_then (omega (arith, k.lower)) rest after,
                ))
          ]
    accepted-rate ((h, false) ∷ l) c r m s account some_limit word generation short late positive
          free o holds =
        let h_le : h ≤ to = AreOrdered-le h to l o.1 in
        let k = settled-Leaks m h c r b o.0 (omega arith) generation short in
        let (r', after) =
          redelegate-outcome h c r m addr a b e s account holds positive generation k in
        omega (
          arith,
          k.rate,
          k.after,
          k.before,
          AreOrdered-le h to l o.1,
          accepted-rate l k.count r' k.block _ account some_limit word generation short late
              (omega (arith, k.after)) (omega (arith, k.lower))
              (AreOrdered-lower k.block h to l k.before o.1) after,
        )
