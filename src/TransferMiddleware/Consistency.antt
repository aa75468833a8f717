-- ===== src/TransferMiddleware/Consistency.antt =====
-- The three indices of the registry describe one set of tokens.
pub mod Reach
use composable_centauri.Base.{
  ◌≡◌, some, none, true, false, arith, Option-cases, Bool-cases, inl, inr, List, [], ◌∷◌,
}
use composable_centauri.Base.Int.{ℤ, ltb_ℤ}
use composable_centauri.Base.Bytes.{Bytes, eq_bytes, eq_bytes_iff}
use composable_centauri.Kv.{Kv, has}
use composable_centauri.Base.Exec.{ok, err}
use composable_centauri.TransferMiddleware.Registry.{
  Registry, ParachainIbcTokenInfo, RemoveParachainIbcTokenInfo, not_registered_native_denom,
  invalid_signer,
}
use composable_centauri.TransferMiddleware.Keeper.{
  add_parachain_ibc_info, remove_parachain_ibc_info, remove_if_due, iterate_remove_list,
  begin_blocker, add_parachain_ibc_token_info, remove_parachain_ibc_token_info, add_rly_address,
}

module _ ⦃kv : Kv⦄ where
  -- Every index entry belongs to one info that all three hold.
  pub record IsConsistent (r : Registry) : Type 0 where
    pub native :
        (n : Bytes) (i : ParachainIbcTokenInfo)
        → kv.get n r.info_by_native_denom ≡ some i
        → (i.native_denom ≡ n)
          × (kv.get i.asset_id r.info_by_asset_id ≡ some i)
          × (kv.get i.ibc_denom r.native_denom_by_ibc_denom ≡ some n)
    pub asset :
        (a : Bytes) (i : ParachainIbcTokenInfo)
        → kv.get a r.info_by_asset_id ≡ some i
        → (i.asset_id ≡ a) × (kv.get i.native_denom r.info_by_native_denom ≡ some i)
    pub ibc_known :
        (d n : Bytes)
        → kv.get d r.native_denom_by_ibc_denom ≡ some n
        → has n r.info_by_native_denom ≡ true
    pub ibc_same :
        (d n : Bytes) (i : ParachainIbcTokenInfo)
        → kv.get d r.native_denom_by_ibc_denom ≡ some n
        → kv.get n r.info_by_native_denom ≡ some i
        → i.ibc_denom ≡ d

  -- What a registration writes, once its checks have passed.
  abbrev pub register : ParachainIbcTokenInfo → Registry → Registry
  register info r = record r {
    info_by_native_denom = kv.set info.native_denom info r.info_by_native_denom;
    info_by_asset_id = kv.set info.asset_id info r.info_by_asset_id;
    native_denom_by_ibc_denom = kv.set info.ibc_denom info.native_denom r.native_denom_by_ibc_denom;
  }

  pub register-IsConsistent :
      (info : ParachainIbcTokenInfo) (r : Registry)
      → IsConsistent r
      → kv.get info.asset_id r.info_by_asset_id ≡ none
      → kv.get info.ibc_denom r.native_denom_by_ibc_denom ≡ none
      → kv.get info.native_denom r.info_by_native_denom ≡ none
      → IsConsistent (register info r)
  register-IsConsistent info r h no_asset no_ibc no_native = record {
    native = λ m i e. ground (
      arith,
      kv.get-set info.native_denom m info r.info_by_native_denom,
      kv.get-set info.asset_id i.asset_id info r.info_by_asset_id,
      kv.get-set info.ibc_denom i.ibc_denom info.native_denom r.native_denom_by_ibc_denom,
      eq_bytes_iff info.native_denom m,
      eq_bytes_iff info.asset_id i.asset_id,
      eq_bytes_iff info.ibc_denom i.ibc_denom,
      h.native m i,
    );
    asset = λ b i e. ground (
      arith,
      kv.get-set info.asset_id b info r.info_by_asset_id,
      kv.get-set info.native_denom i.native_denom info r.info_by_native_denom,
      eq_bytes_iff info.asset_id b,
      eq_bytes_iff info.native_denom i.native_denom,
      h.asset b i,
    );
    ibc_known = λ f m e. ground (
      arith,
      kv.get-set info.native_denom m info r.info_by_native_denom,
      kv.get-set info.ibc_denom f info.native_denom r.native_denom_by_ibc_denom,
      eq_bytes_iff info.native_denom m,
      eq_bytes_iff info.ibc_denom f,
      h.ibc_known f m,
    );
    ibc_same = λ f m i e g. ground (
      arith,
      kv.get-set info.native_denom m info r.info_by_native_denom,
      kv.get-set info.ibc_denom f info.native_denom r.native_denom_by_ibc_denom,
      eq_bytes_iff info.native_denom m,
      eq_bytes_iff info.ibc_denom f,
      h.ibc_known f m,
      h.ibc_same f m i,
    );
  }

  -- A registration keeps the indices consistent, whether its checks pass or not.
  pub add_parachain_ibc_info-IsConsistent :
      (d c n a : Bytes) (r : Registry)
      → IsConsistent r
      → IsConsistent (add_parachain_ibc_info d c n a r).1
  unfolding add_parachain_ibc_info
  add_parachain_ibc_info-IsConsistent d c n a r h =
      elim (Option-cases (kv.get a r.info_by_asset_id)) [
        | inr (i, e) ↦ rw (e, has) h
        | inl no_asset ↦ elim (Option-cases (kv.get d r.native_denom_by_ibc_denom)) [
          | inr (i, e) ↦ rw (no_asset, e, has) h
          | inl no_ibc ↦ elim (Option-cases (kv.get n r.info_by_native_denom)) [
            | inr (i, e) ↦ rw (no_asset, no_ibc, e, has) h
            | inl no_native ↦
                rw (no_asset, no_ibc, no_native, has)
                  (register-IsConsistent
                    (record { ibc_denom = d; channel_id = c; native_denom = n; asset_id = a }) r h
                    no_asset no_ibc no_native)
          ]
        ]
      ]

  -- What a removal deletes.
  abbrev unregister : Bytes → ParachainIbcTokenInfo → Registry → Registry
  unregister n info r = record r {
    info_by_native_denom = kv.delete n r.info_by_native_denom;
    info_by_asset_id = kv.delete info.asset_id r.info_by_asset_id;
    native_denom_by_ibc_denom = kv.delete info.ibc_denom r.native_denom_by_ibc_denom;
  }

  unregister-IsConsistent :
      (n : Bytes) (info : ParachainIbcTokenInfo) (r : Registry)
      → IsConsistent r
      → kv.get n r.info_by_native_denom ≡ some info
      → IsConsistent (unregister n info r)
  unregister-IsConsistent n info r h found = record {
    native = λ m i e. ground (
      arith,
      kv.get-delete n m r.info_by_native_denom,
      kv.get-delete info.asset_id i.asset_id r.info_by_asset_id,
      kv.get-delete info.ibc_denom i.ibc_denom r.native_denom_by_ibc_denom,
      eq_bytes_iff n m,
      eq_bytes_iff info.asset_id i.asset_id,
      eq_bytes_iff info.ibc_denom i.ibc_denom,
      h.native m i,
      h.native n info,
    );
    asset = λ b i e. ground (
      arith,
      kv.get-delete info.asset_id b r.info_by_asset_id,
      kv.get-delete n i.native_denom r.info_by_native_denom,
      eq_bytes_iff info.asset_id b,
      eq_bytes_iff n i.native_denom,
      h.asset b i,
    );
    ibc_known = λ f m e. ground (
      arith,
      kv.get-delete n m r.info_by_native_denom,
      kv.get-delete info.ibc_denom f r.native_denom_by_ibc_denom,
      eq_bytes_iff n m,
      eq_bytes_iff info.ibc_denom f,
      h.ibc_known f m,
      h.ibc_same f m info,
    );
    ibc_same = λ f m i e g. ground (
      arith,
      kv.get-delete n m r.info_by_native_denom,
      kv.get-delete info.ibc_denom f r.native_denom_by_ibc_denom,
      eq_bytes_iff n m,
      eq_bytes_iff info.ibc_denom f,
      h.ibc_same f m i,
    );
  }

  pub remove_parachain_ibc_info-found :
      (n : Bytes) {info : ParachainIbcTokenInfo} (r : Registry)
      → kv.get n r.info_by_native_denom ≡ some info
      → remove_parachain_ibc_info n r ≡ (ok tt, unregister n info r)
  unfolding remove_parachain_ibc_info
  remove_parachain_ibc_info-found n r e = ground arith

  pub remove_parachain_ibc_info-missing :
      (n : Bytes) (r : Registry)
      → kv.get n r.info_by_native_denom ≡ none
      → remove_parachain_ibc_info n r ≡ (err not_registered_native_denom, r)
  unfolding remove_parachain_ibc_info
  remove_parachain_ibc_info-missing n r e = ground arith

  -- A removal keeps the indices consistent.
  pub remove_parachain_ibc_info-IsConsistent :
      (n : Bytes) (r : Registry) → IsConsistent r → IsConsistent (remove_parachain_ibc_info n r).1
  remove_parachain_ibc_info-IsConsistent n r h =
      elim (Option-cases (kv.get n r.info_by_native_denom)) [
        | inl missing ↦ rw (remove_parachain_ibc_info-missing n r missing) h
        | inr (i, e) ↦
            rw (remove_parachain_ibc_info-found n r e) (unregister-IsConsistent n i r h e)
      ]

  remove_if_due-IsConsistent :
      (time : ℤ) (entry : Bytes × RemoveParachainIbcTokenInfo) (r : Registry)
      → IsConsistent r
      → IsConsistent (remove_if_due time entry r)
  unfolding remove_if_due
  remove_if_due-IsConsistent time entry r h = elim (Bool-cases (ltb_ℤ entry.1.remove_time time)) [
    | inl due ↦ rw due (remove_parachain_ibc_info-IsConsistent entry.1.native_denom r h)
    | inr early ↦ rw early h
  ]

  pub iterate_remove_list-IsConsistent :
      (time : ℤ) (l : List (Bytes × RemoveParachainIbcTokenInfo)) (r : Registry)
      → IsConsistent r
      → IsConsistent (iterate_remove_list time l r)
  unfolding iterate_remove_list
  iterate_remove_list-IsConsistent time [] r h = h
  iterate_remove_list-IsConsistent time (entry ∷ l) r h =
      iterate_remove_list-IsConsistent time l (remove_if_due time entry r)
        (remove_if_due-IsConsistent time entry r h)
