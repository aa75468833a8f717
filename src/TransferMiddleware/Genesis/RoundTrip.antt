-- ===== src/TransferMiddleware/Genesis/RoundTrip.antt =====
-- An exported registry, imported into an empty one.
use composable_centauri.Base.{
  ℕ, suc, ◌≡◌, refl, sym, subst, ap, ◌∙◌, inl, inr, false, some, none, List, [], ◌∷◌, ◌++◌, map,
  arith, Option-cases, Option,
}
use composable_centauri.Base.Bytes.{Bytes, eq_bytes_iff}
use composable_centauri.Kv.{Kv, lookup, IsUnique}
use composable_centauri.Kv.Entries.{AllEntries, entries_all}
use composable_centauri.TransferMiddleware.Registry.{Registry, ParachainIbcTokenInfo}
use composable_centauri.TransferMiddleware.Keeper.{add_parachain_ibc_info}
use composable_centauri.TransferMiddleware.Consistency.{
  IsConsistent, register, register-IsConsistent,
}
use composable_centauri.TransferMiddleware.Genesis.{
  iterate, iterate_para_token_infos, add_token_infos, init_genesis, export_genesis,
}

append_assoc : {A : Type 0} (xs ys zs : List A) → (xs ++ ys) ++ zs ≡ xs ++ (ys ++ zs)
append_assoc [] ys zs = refl
append_assoc (x ∷ xs) ys zs = ap (λ l. x ∷ l) (append_assoc xs ys zs)

append_nil : {A : Type 0} (xs : List A) → xs ++ [] ≡ xs
append_nil [] = refl
append_nil (x ∷ xs) = ap (λ l. x ∷ l) (append_nil xs)

collected :
    (i : ℕ) (l infos : List ParachainIbcTokenInfo)
    → iterate (λ index info acc. (false, acc ++ info ∷ [])) i l infos ≡ infos ++ l
unfolding iterate
collected i [] infos = sym (append_nil infos)
collected i (info ∷ l) infos =
    collected (suc i) l (infos ++ info ∷ []) ∙ append_assoc infos (info ∷ []) l

module _ ⦃kv : Kv⦄ where
  -- An import that has the entries of a list before it.
  record Progress (r s : Registry) (l : List (Bytes × ParachainIbcTokenInfo)) : Type 0 where
    consistent : IsConsistent s
    sound :
        (n : Bytes) (i : ParachainIbcTokenInfo)
        → kv.get n s.info_by_native_denom ≡ some i
        → kv.get n r.info_by_native_denom ≡ some i
    complete :
        (i : ParachainIbcTokenInfo)
        → kv.get i.native_denom r.info_by_native_denom ≡ some i
        → lookup i.asset_id l ≡ none
        → kv.get i.native_denom s.info_by_native_denom ≡ some i
    waiting :
        (a : Bytes) (i : ParachainIbcTokenInfo)
        → lookup a l ≡ some i
        → kv.get a s.info_by_asset_id ≡ none

  registers :
      (i : ParachainIbcTokenInfo) (s : Registry)
      → kv.get i.asset_id s.info_by_asset_id ≡ none
      → kv.get i.ibc_denom s.native_denom_by_ibc_denom ≡ none
      → kv.get i.native_denom s.info_by_native_denom ≡ none
      → (add_parachain_ibc_info i.ibc_denom i.channel_id i.native_denom i.asset_id s).1
        ≡ register i s
  unfolding add_parachain_ibc_info
  registers i s no_asset no_ibc no_native = ground arith

  module _ (r s : Registry) (a : Bytes) (i : ParachainIbcTokenInfo)
      (l : List (Bytes × ParachainIbcTokenInfo)) (h : IsConsistent r)
      (p : Progress r s ((a, i) ∷ l)) (entry : kv.get a r.info_by_asset_id ≡ some i) where
    no_asset : kv.get i.asset_id s.info_by_asset_id ≡ none
    unfolding lookup
    no_asset = ground (arith, p.waiting i.asset_id i, eq_bytes_iff a i.asset_id, h.asset a i entry)

    no_native : kv.get i.native_denom s.info_by_native_denom ≡ none
    no_native = elim (Option-cases (kv.get i.native_denom s.info_by_native_denom)) [
      | inl free ↦ free
      | inr (j, taken) ↦ absurd (
          ground (
            arith,
            no_asset,
            p.sound i.native_denom j taken,
            h.asset a i entry,
            p.consistent.native i.native_denom j taken,
          ))
    ]

    no_ibc : kv.get i.ibc_denom s.native_denom_by_ibc_denom ≡ none
    no_ibc = elim (Option-cases (kv.get i.ibc_denom s.native_denom_by_ibc_denom)) [
      | inl free ↦ free
      | inr (n, taken) ↦ elim (Option-cases (kv.get n s.info_by_native_denom)) [
        | inl missing ↦ absurd (ground (arith, p.consistent.ibc_known i.ibc_denom n taken))
        | inr (j, found) ↦ absurd (
            ground (
              arith,
              no_native,
              p.sound n j found,
              p.consistent.ibc_same i.ibc_denom n j taken found,
              h.native n j,
              h.native i.native_denom i,
              h.asset a i entry,
            ))
      ]
    ]

    next-Progress : lookup a l ≡ none → Progress r (register i s) l
    unfolding lookup
    next-Progress unique = record {
      consistent = register-IsConsistent i s p.consistent no_asset no_ibc no_native;
      sound = λ n j e. ground (
        arith,
        p.sound n j,
        kv.get-set i.native_denom n i s.info_by_native_denom,
        eq_bytes_iff i.native_denom n,
        h.asset a i entry,
      );
      complete = λ j e f. ground (
        arith,
        p.complete j e,
        kv.get-set i.native_denom j.native_denom i s.info_by_native_denom,
        eq_bytes_iff i.native_denom j.native_denom,
        eq_bytes_iff a j.asset_id,
        h.asset a i entry,
        h.native j.native_denom j e,
      );
      waiting = λ b j e. ground (
        arith,
        p.waiting b j,
        kv.get-set i.asset_id b i s.info_by_asset_id,
        eq_bytes_iff i.asset_id b,
        eq_bytes_iff a b,
        h.asset a i entry,
      );
    }

  add_token_infos-Progress :
      (r s : Registry) (l : List (Bytes × ParachainIbcTokenInfo))
      → IsConsistent r
      → Progress r s l
      → AllEntries (λ a i. kv.get a r.info_by_asset_id ≡ some i) l
      → IsUnique l
      → Progress r (add_token_infos (map (λ e. e.1) l) s) []
  unfolding add_token_infos
  add_token_infos-Progress r s [] h p stored unique = p
  add_token_infos-Progress r s ((a, i) ∷ l) h p (entry, stored) (apart, unique) =
      rw
        (
          add_token_infos,
          registers i s (no_asset r s a i l h p entry) (no_ibc r s a i l h p entry)
              (no_native r s a i l h p entry),
        )
        (add_token_infos-Progress r (register i s) l h (next-Progress r s a i l h p entry apart)
          stored unique)

  -- A registry without tokens.
  pub record IsEmpty (s : Registry) : Type 0 where
    pub no_natives : (n : Bytes) → kv.get n s.info_by_native_denom ≡ none
    pub no_assets : (a : Bytes) → kv.get a s.info_by_asset_id ≡ none
    pub no_ibc_denoms : (d : Bytes) → kv.get d s.native_denom_by_ibc_denom ≡ none

  start-Progress :
      (r s : Registry) → IsConsistent r → IsEmpty s → Progress r s (kv.entries r.info_by_asset_id)
  start-Progress r s h z = record {
    consistent = record {
      native = λ n i e. absurd (ground (arith, z.no_natives n));
      asset = λ a i e. absurd (ground (arith, z.no_assets a));
      ibc_known = λ d n e. absurd (ground (arith, z.no_ibc_denoms d));
      ibc_same = λ d n i e f. absurd (ground (arith, z.no_ibc_denoms d));
    };
    sound = λ n i e. absurd (ground (arith, z.no_natives n));
    complete = λ i e f. absurd (
        ground
          (arith, kv.lookup-entries i.asset_id r.info_by_asset_id, h.native i.native_denom i e));
    waiting = λ a i e. z.no_assets a;
  }

  -- Consistent registries with the same native denoms have the same entries in the other indices.
  asset_follows :
      (r s : Registry) (a : Bytes) (i : ParachainIbcTokenInfo)
      → IsConsistent r
      → IsConsistent s
      → ((n : Bytes) → kv.get n r.info_by_native_denom ≡ kv.get n s.info_by_native_denom)
      → kv.get a r.info_by_asset_id ≡ some i
      → kv.get a s.info_by_asset_id ≡ some i
  asset_follows r s a i h k same e =
      ground (arith, same i.native_denom, h.asset a i e, k.native i.native_denom i)

  ibc_follows :
      (r s : Registry) (d n : Bytes)
      → IsConsistent r
      → IsConsistent s
      → ((m : Bytes) → kv.get m r.info_by_native_denom ≡ kv.get m s.info_by_native_denom)
      → kv.get d r.native_denom_by_ibc_denom ≡ some n
      → kv.get d s.native_denom_by_ibc_denom ≡ some n
  ibc_follows r s d n h k same e = elim (Option-cases (kv.get n r.info_by_native_denom)) [
    | inl missing ↦ absurd (ground (arith, h.ibc_known d n e))
    | inr (i, found) ↦ ground (arith, same n, h.ibc_same d n i e found, k.native n i)
  ]

  both_ways :
      {V : Type 0} (x y : Option V)
      → ((v : V) → x ≡ some v → y ≡ some v)
      → ((v : V) → y ≡ some v → x ≡ some v)
      → x ≡ y
  both_ways none none f g = refl
  both_ways none (some v) f g = g v refl
  both_ways (some v) y f g = sym (f v refl)

  -- A consistent registry that is exported and imported into a chain without tokens is found there
  -- again: each of the three indices has the same entry, or none, under every key, and the duration
  -- is the same.
  pub init_genesis-export_genesis :
      (r s : Registry)
      → IsConsistent r
      → IsEmpty s
      → let t : Registry = init_genesis (export_genesis r) s in
        ((n : Bytes) → kv.get n t.info_by_native_denom ≡ kv.get n r.info_by_native_denom)
        × ((a : Bytes) → kv.get a t.info_by_asset_id ≡ kv.get a r.info_by_asset_id)
        × ((d : Bytes)
            → kv.get d t.native_denom_by_ibc_denom ≡ kv.get d r.native_denom_by_ibc_denom)
        × (t.duration ≡ r.duration)
  unfolding init_genesis export_genesis iterate_para_token_infos lookup
  init_genesis-export_genesis r s h z =
      let l : List (Bytes × ParachainIbcTokenInfo) = kv.entries r.info_by_asset_id in
      let t : Registry = add_token_infos (map (λ e. e.1) l) s in
      let p : Progress r t [] =
        add_token_infos-Progress r s l h (start-Progress r s h z)
          (entries_all (λ a i. kv.get a r.info_by_asset_id ≡ some i) r.info_by_asset_id
            (λ a i e. e))
          (kv.entries-IsUnique r.info_by_asset_id) in
      let natives : (n : Bytes)
          → kv.get n t.info_by_native_denom ≡ kv.get n r.info_by_native_denom =
        λ n. both_ways _ _ (p.sound n) (λ i e.
          let (named, _, _) = h.native n i e in
          subst (λ m. kv.get m t.info_by_native_denom ≡ some i) named
            (p.complete i (subst (λ m. kv.get m r.info_by_native_denom ≡ some i) (sym named) e)
              refl)) in
      rw (collected 0 (map (λ e. e.1) l) []) (
        natives,
        λ a.
            both_ways _ _ (λ i. asset_follows t r a i p.consistent h natives)
              (λ i. asset_follows r t a i h p.consistent (λ n. sym (natives n))),
        λ d.
            both_ways _ _ (λ n. ibc_follows t r d n p.consistent h natives)
              (λ n. ibc_follows r t d n h p.consistent (λ m. sym (natives m))),
        refl,
      )
