-- ===== src/TransferMiddleware/Removal.antt =====
-- The remove list (AddParachainIBCInfoToRemoveList and BeginBlocker).
pub mod Indices
use composable_centauri.Base.{
  Bool, ◌≡◌, refl, some, none, true, false, Option, arith, ◌∙◌, List, [], ◌∷◌, if◌then◌else◌,
}
use composable_centauri.Base.Int.{ℤ, ltb_ℤ, ◌≤ℤ◌, ◌+ℤ◌}
use composable_centauri.Base.Bytes.{Bytes, eq_bytes, eq_bytes_iff}
use composable_centauri.Kv.{Kv, lookup, IsUnique}
use composable_centauri.Kv.Entries.{AllEntries, entries_all}
use composable_centauri.TransferMiddleware.Registry.{Registry, RemoveParachainIbcTokenInfo}
use composable_centauri.TransferMiddleware.Keeper.{
  remove_parachain_ibc_info, remove_if_due, iterate_remove_list, begin_blocker,
  remove_parachain_ibc_token_info, add_rly_address, add_parachain_ibc_token_info,
}
use composable_centauri.TransferMiddleware.Consistency.Reach.{
  Step, adds, removes, allows, blocks, Reach, here, next,
}

module _ ⦃kv : Kv⦄ where
  -- Each entry of the remove list stands under its own denom.
  abbrev pub IsKeyed : Registry → Type 0
  IsKeyed r =
      (n : Bytes) (e : RemoveParachainIbcTokenInfo)
      → kv.get n r.remove_list ≡ some e
      → e.native_denom ≡ n

  -- Whether the removal of a token is due at a time.
  abbrev pub is_due : ℤ → Option RemoveParachainIbcTokenInfo → Bool
  is_due time none = false
  is_due time (some e) = ltb_ℤ e.remove_time time

  remove-lookup :
      (n m : Bytes) (r : Registry)
      → kv.get m (remove_parachain_ibc_info n r).1.info_by_native_denom
        ≡ (if eq_bytes n m then none else kv.get m r.info_by_native_denom)
  unfolding remove_parachain_ibc_info
  remove-lookup n m r = ground (arith, kv.get-delete n m r.info_by_native_denom, eq_bytes_iff n m)

  abbrev ListKeyed : List (Bytes × RemoveParachainIbcTokenInfo) → Type 0
  ListKeyed = AllEntries (λ n e. e.native_denom ≡ n)

  iterate-lookup :
      (time : ℤ) (m : Bytes) (l : List (Bytes × RemoveParachainIbcTokenInfo)) (r : Registry)
      → ListKeyed l
      → IsUnique l
      → kv.get m (iterate_remove_list time l r).info_by_native_denom
        ≡ (if is_due time (lookup m l) then none else kv.get m r.info_by_native_denom)
  unfolding iterate_remove_list remove_if_due lookup
  iterate-lookup time m [] r k u = refl
  iterate-lookup time m ((n, e) ∷ l) r k u = ground (
    arith,
    iterate-lookup time m l (remove_if_due time (n, e) r) k.1 u.1,
    remove-lookup e.native_denom m r,
    eq_bytes_iff n m,
    eq_bytes_iff e.native_denom m,
  )

  entries-ListKeyed : (r : Registry) → IsKeyed r → ListKeyed (kv.entries r.remove_list)
  entries-ListKeyed r k = entries_all (λ n e. e.native_denom ≡ n) r.remove_list k

  -- When the remove list stands under its own denoms, a block removes from the index of native denoms
  -- exactly the tokens whose removal is due, and leaves every other token in it.
  pub begin_blocker-lookup :
      (time : ℤ) (n : Bytes) (r : Registry)
      → IsKeyed r
      → kv.get n (begin_blocker time r).info_by_native_denom
        ≡ (if is_due time (kv.get n r.remove_list) then none else kv.get n r.info_by_native_denom)
  unfolding begin_blocker
  begin_blocker-lookup time n r k = ground (
    arith,
    iterate-lookup time n (kv.entries r.remove_list) r (entries-ListKeyed r k)
        (kv.entries-IsUnique r.remove_list),
    kv.lookup-entries n r.remove_list,
  )

  remove-list_same :
      (n : Bytes) (r : Registry) → (remove_parachain_ibc_info n r).1.remove_list ≡ r.remove_list
  unfolding remove_parachain_ibc_info
  remove-list_same n r = ground arith

  iterate-list_same :
      (time : ℤ) (l : List (Bytes × RemoveParachainIbcTokenInfo)) (r : Registry)
      → (iterate_remove_list time l r).remove_list ≡ r.remove_list
  unfolding iterate_remove_list remove_if_due
  iterate-list_same time [] r = refl
  iterate-list_same time (e ∷ l) r = ground (
    arith,
    iterate-list_same time l (remove_if_due time e r),
    remove-list_same e.1.native_denom r,
  )

  add-list_same :
      (sender d c n a : Bytes) (r : Registry)
      → (add_parachain_ibc_token_info sender d c n a r).1.remove_list ≡ r.remove_list
  unfolding add_parachain_ibc_token_info
  add-list_same sender d c n a r = ground arith

  -- A block never takes a token off the remove list, and a registration does not either.
  pub begin_blocker-list_same :
      (time : ℤ) (r : Registry) → (begin_blocker time r).remove_list ≡ r.remove_list
  unfolding begin_blocker
  begin_blocker-list_same time r = iterate-list_same time (kv.entries r.remove_list) r

  Step-IsKeyed : {r s : Registry} → Step r s → IsKeyed r → IsKeyed s
  unfolding remove_parachain_ibc_token_info add_rly_address
  Step-IsKeyed {r} (adds sender d c n a) k = rw (add-list_same sender d c n a r) k
  Step-IsKeyed {r} (removes time sender n) k = λ m e. ground (
    arith,
    k m e,
    kv.get-set n m (record { native_denom = n; remove_time = time +ℤ r.duration }) r.remove_list,
    eq_bytes_iff n m,
  )
  Step-IsKeyed {r} (allows sender a) k = λ m e. ground (arith, k m e)
  Step-IsKeyed {r} (blocks time) k = rw (begin_blocker-list_same time r) k

  pub Reach-IsKeyed : {r s : Registry} → IsKeyed r → Reach r s → IsKeyed s
  Reach-IsKeyed k here = k
  Reach-IsKeyed k (next steps step) = Step-IsKeyed step (Reach-IsKeyed k steps)

  is_due_later :
      (early late : ℤ) (o : Option RemoveParachainIbcTokenInfo)
      → early ≤ℤ late
      → is_due early o ≡ true
      → is_due late o ≡ true
  is_due_later early late none h d = d
  is_due_later early late (some e) h d = ground arith

  -- Once a removal was due in a block, the entry stays on the remove list: a token registered again
  -- under that denom is gone after the next block, whoever registered it and with whatever data, if
  -- the list stands under its own denoms.
  pub begin_blocker-registered_again :
      (early late : ℤ) (sender d c n a : Bytes) (r : Registry)
      → IsKeyed r
      → early ≤ℤ late
      → is_due early (kv.get n r.remove_list) ≡ true
      → let removed = begin_blocker early r in
        let again = (add_parachain_ibc_token_info sender d c n a removed).1 in
        kv.get n (begin_blocker late again).info_by_native_denom ≡ none
  begin_blocker-registered_again early late sender d c n a r k h due =
      let removed : Registry = begin_blocker early r in
      let again : Registry = (add_parachain_ibc_token_info sender d c n a removed).1 in
      let same : again.remove_list ≡ r.remove_list =
        add-list_same sender d c n a removed ∙ begin_blocker-list_same early r in
      rw (
        begin_blocker-lookup late n again (rw same k),
        same,
        is_due_later early late (kv.get n r.remove_list) h due,
      )
