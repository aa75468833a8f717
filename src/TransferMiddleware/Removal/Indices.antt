-- ===== src/TransferMiddleware/Removal/Indices.antt =====
-- A block's removals in all three indices of the registry (x/transfermiddleware/keeper/abci.go).
use composable_centauri.Base.{
  Bool, ◌≡◌, refl, ◌∙◌, inl, inr, some, none, false, Option, arith, List, [], ◌∷◌, if◌then◌else◌,
  Option-cases,
}
use composable_centauri.Base.Int.{ℤ}
use composable_centauri.Base.Bytes.{Bytes}
use composable_centauri.Kv.{Kv}
use composable_centauri.TransferMiddleware.Registry.{
  Registry, ParachainIbcTokenInfo, RemoveParachainIbcTokenInfo,
}
use composable_centauri.TransferMiddleware.Keeper.{
  remove_parachain_ibc_info, remove_if_due, iterate_remove_list, begin_blocker,
}
use composable_centauri.TransferMiddleware.Consistency.{
  IsConsistent, iterate_remove_list-IsConsistent,
}
use composable_centauri.TransferMiddleware.Removal.{IsKeyed, is_due, begin_blocker-lookup}

-- An entry, less those of the native denoms that go.
abbrev pub less {ℓ} : {V : Type ℓ} → (Bytes → Bool) → (V → Bytes) → Option V → Option V
less goes denom_of none = none
less goes denom_of (some v) = if goes (denom_of v) then none else some v

module _ ⦃kv : Kv⦄ where
  -- Of the tokens whose native denom goes, no index has an entry; of the others, each has what it had.
  pub record Removes (goes : Bytes → Bool) (r t : Registry) : Type 0 where
    pub native :
        (n : Bytes)
        → kv.get n t.info_by_native_denom
          ≡ (if goes n then none else kv.get n r.info_by_native_denom)
    pub asset :
        (a : Bytes)
        → kv.get a t.info_by_asset_id
          ≡ less goes (λ i. i.native_denom) (kv.get a r.info_by_asset_id)
    pub ibc :
        (d : Bytes)
        → kv.get d t.native_denom_by_ibc_denom
          ≡ less goes (λ n. n) (kv.get d r.native_denom_by_ibc_denom)

  module _ (goes : Bytes → Bool) (r t : Registry) (before : IsConsistent r) (after : IsConsistent t)
      (native : (n : Bytes)
        → kv.get n t.info_by_native_denom
          ≡ (if goes n then none else kv.get n r.info_by_native_denom)) where
    asset-stays :
        (a : Bytes) (i : ParachainIbcTokenInfo)
        → kv.get a t.info_by_asset_id ≡ some i
        → (kv.get a r.info_by_asset_id ≡ some i) × (goes i.native_denom ≡ false)
    asset-stays a i e =
        let (same, found) = after.asset a i e in
        ground (arith, native i.native_denom, before.native i.native_denom i, same, found)

    asset-removed :
        (a : Bytes)
        → kv.get a t.info_by_asset_id
          ≡ less goes (λ i. i.native_denom) (kv.get a r.info_by_asset_id)
    asset-removed a = elim (Option-cases (kv.get a t.info_by_asset_id)) [
      | inr (i, e) ↦ ground (arith, asset-stays a i e)
      | inl gone ↦ elim (Option-cases (kv.get a r.info_by_asset_id)) [
        | inl missing ↦ ground arith
        | inr (i, e) ↦
            let (same, found) = before.asset a i e in
            ground (arith, native i.native_denom, after.native i.native_denom i, same, found)
      ]
    ]

    ibc-stays :
        (d n : Bytes)
        → kv.get d t.native_denom_by_ibc_denom ≡ some n
        → (kv.get d r.native_denom_by_ibc_denom ≡ some n) × (goes n ≡ false)
    ibc-stays d n e = elim (Option-cases (kv.get n t.info_by_native_denom)) [
      | inl missing ↦ absurd (ground (arith, after.ibc_known d n e))
      | inr (i, found) ↦
          let same = after.ibc_same d n i e found in
          ground (arith, native n, before.native n i, same)
    ]

    ibc-removed :
        (d : Bytes)
        → kv.get d t.native_denom_by_ibc_denom
          ≡ less goes (λ n. n) (kv.get d r.native_denom_by_ibc_denom)
    ibc-removed d = elim (Option-cases (kv.get d t.native_denom_by_ibc_denom)) [
      | inr (n, e) ↦ ground (arith, ibc-stays d n e)
      | inl gone ↦ elim (Option-cases (kv.get d r.native_denom_by_ibc_denom)) [
        | inl missing ↦ ground arith
        | inr (n, e) ↦ elim (Option-cases (kv.get n r.info_by_native_denom)) [
          | inl unknown ↦ absurd (ground (arith, before.ibc_known d n e))
          | inr (i, found) ↦
              let same = before.ibc_same d n i e found in
              ground (arith, native n, after.native n i, same)
        ]
      ]
    ]

  -- The rest of the registry is the same.
  abbrev pub SameRest : Registry → Registry → Type 0
  SameRest r t =
      (t.authority ≡ r.authority)
      × (t.duration ≡ r.duration)
      × (t.rly_addresses ≡ r.rly_addresses)
      × (t.remove_list ≡ r.remove_list)

  remove_if_due-SameRest :
      (time : ℤ) (entry : Bytes × RemoveParachainIbcTokenInfo) (r : Registry)
      → SameRest r (remove_if_due time entry r)
  unfolding remove_if_due remove_parachain_ibc_info
  remove_if_due-SameRest time entry r = (ground arith, ground arith, ground arith, ground arith)

  iterate_remove_list-SameRest :
      (time : ℤ) (l : List (Bytes × RemoveParachainIbcTokenInfo)) (r : Registry)
      → SameRest r (iterate_remove_list time l r)
  unfolding iterate_remove_list
  iterate_remove_list-SameRest time [] r = (refl, refl, refl, refl)
  iterate_remove_list-SameRest time (entry ∷ l) r =
      let first = remove_if_due-SameRest time entry r in
      let rest = iterate_remove_list-SameRest time l (remove_if_due time entry r) in
      (rest.0 ∙ first.0, rest.1 ∙ first.1, rest.2 ∙ first.2, rest.3 ∙ first.3)

  -- From a consistent registry whose remove list stands under its own denoms, a block removes exactly
  -- the tokens whose removal is due, from all three indices, and leaves every other token in them as
  -- it is; the rest of the registry is the same, the remove list included.
  pub begin_blocker-Removes :
      (time : ℤ) (r : Registry)
      → IsKeyed r
      → IsConsistent r
      → Removes (λ n. is_due time (kv.get n r.remove_list)) r (begin_blocker time r)
        × SameRest r (begin_blocker time r)
  unfolding begin_blocker
  begin_blocker-Removes time r keyed h =
      let goes : Bytes → Bool = λ n. is_due time (kv.get n r.remove_list) in
      let t : Registry = begin_blocker time r in
      let after : IsConsistent t =
        iterate_remove_list-IsConsistent time (kv.entries r.remove_list) r h in
      (
        record {
          native = λ n. begin_blocker-lookup time n r keyed;
          asset = asset-removed goes r t h after (λ n. begin_blocker-lookup time n r keyed);
          ibc = ibc-removed goes r t h after (λ n. begin_blocker-lookup time n r keyed);
        },
        iterate_remove_list-SameRest time (kv.entries r.remove_list) r,
      )
