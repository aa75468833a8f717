-- ===== src/Migration/Stores.antt =====
-- A migration of the values of a store (IterateStoreByPrefix of bech32-migration/utils/utils.go).
use composable_centauri.Base.{
  ◌≡◌, refl, sym, ◌∙◌, inl, inr, Bool-cases, Option, none, some, List, [], ◌∷◌, arith,
}
use composable_centauri.Base.Bytes.{Bytes, eq_bytes, eq_bytes_iff}
use composable_centauri.Base.Exec.{Result, ok, Exec, pure, lift, modify, Result-cases, ◌>>=◌, ◌>>◌}
use composable_centauri.Kv.{Kv, lookup, IsUnique}
use composable_centauri.Migration.Addresses.{Panic}

-- The call of a conversion on the value under a key, if there is one.
abbrev pub on_value : {V W : Type 0} → (V → W) → Option V → Option W
on_value fn none = none
on_value fn (some v) = some (fn v)

module _ ⦃kv : Kv⦄ {V : Type 0} where
  -- The loop, over the entries from the iterator's place on. A panic of the conversion ends it.
  unfoldable pub iterate_entries :
      (V → Result Panic V) → List (Bytes × V) → Exec Panic (kv.Store V) (Unit {0})
  iterate_entries fn [] = pure tt
  iterate_entries fn ((key, value) ∷ entries) = do
    new_value ← lift (fn value)
    modify (kv.set key new_value)
    iterate_entries fn entries

  -- IterateStoreByPrefix
  unfoldable pub iterate_store_by_prefix : (V → Result Panic V) → Exec Panic (kv.Store V) (Unit {0})
  unfolding iterate_entries
  iterate_store_by_prefix fn store = iterate_entries fn (kv.entries store) store

  abbrev converted_at : (V → Result Panic V) → Option V → Option V → Option (Result Panic V)
  converted_at fn none before = on_value ok before
  converted_at fn (some v) before = some (fn v)

  iterate_entries-get :
      (fn : V → Result Panic V) (k : Bytes) (l : List (Bytes × V)) (s : kv.Store V)
      → IsUnique l
      → (iterate_entries fn l s).0 ≡ ok tt
      → on_value ok (kv.get k (iterate_entries fn l s).1)
        ≡ converted_at fn (lookup k l) (kv.get k s)
  unfolding iterate_entries lookup
  iterate_entries-get fn k [] s u done = refl
  iterate_entries-get fn k ((j, v) ∷ l) s u done = elim (Result-cases (fn v)) [
    | inr (x, bad) ↦ absurd (ground arith)
    | inl (w, good) ↦
        ground (
          arith,
          iterate_entries-get fn k l (kv.set j w s) u.1,
          kv.get-set j k w s,
          eq_bytes_iff j k,
        )
  ]

  -- The loop ends in a panic at the first value that the conversion does not take.
  iterate_entries-finished :
      (fn : V → Result Panic V) (k : Bytes) (v : V) (l : List (Bytes × V)) (s : kv.Store V)
      → (iterate_entries fn l s).0 ≡ ok tt
      → lookup k l ≡ some v
      → (w : V) × (fn v ≡ ok w)
  unfolding iterate_entries lookup
  iterate_entries-finished fn k v [] s done found = absurd (ground arith)
  iterate_entries-finished fn k v ((j, u) ∷ l) s done found = elim (Result-cases (fn u)) [
    | inr (x, bad) ↦ absurd (ground arith)
    | inl (w, good) ↦ elim (Bool-cases (eq_bytes j k)) [
      | inl same ↦ (w, ground arith)
      | inr other ↦ iterate_entries-finished fn k v l (kv.set j w s) (ground arith) (ground arith)
    ]
  ]

  -- A run of IterateStoreByPrefix that does not panic converts the value under each key exactly once,
  -- and leaves a key without a value where there was none.
  pub iterate_store_by_prefix-converts :
      (fn : V → Result Panic V) (k : Bytes) (store : kv.Store V)
      → (iterate_store_by_prefix fn store).0 ≡ ok tt
      → on_value ok (kv.get k (iterate_store_by_prefix fn store).1) ≡ on_value fn (kv.get k store)
  unfolding iterate_store_by_prefix
  iterate_store_by_prefix-converts fn k store done = ground (
    arith,
    iterate_entries-get fn k (kv.entries store) store (kv.entries-IsUnique store) done,
    kv.lookup-entries k store,
  )

  iterate_entries-Returns :
      (fn : V → Result Panic V) (l : List (Bytes × V)) (s : kv.Store V)
      → IsUnique l
      → ((k : Bytes) (v : V) → lookup k l ≡ some v → (w : V) × (fn v ≡ ok w))
      → (iterate_entries fn l s).0 ≡ ok tt
  unfolding iterate_entries lookup
  iterate_entries-Returns fn [] s u takes = refl
  iterate_entries-Returns fn ((j, v) ∷ l) s u takes =
      let (w, good) = takes j v (ground (arith, eq_bytes_iff j j)) in
      ground (
        arith,
        iterate_entries-Returns fn l (kv.set j w s) u.1
            (λ k x found. takes k x (ground (arith, eq_bytes_iff j k))),
      )

  -- What stands under a key after a migration: nothing where nothing was, and a value that is related
  -- to the one that was there.
  abbrev pub Moved : (V → V → Type 0) → Option V → Option V → Type 0
  Moved R none after = after ≡ none
  Moved R (some v) after = (w : V) × (after ≡ some w) × R v w

  moved :
      (fn : V → Result Panic V) (R : V → V → Type 0) (before after : Option V)
      → ((v w : V) → fn v ≡ ok w → R v w)
      → on_value ok after ≡ on_value fn before
      → Moved R before after
  moved fn R none none moves e = refl
  moved fn R none (some w) moves e = absurd (ground arith)
  moved fn R (some v) none moves e = absurd (ground arith)
  moved fn R (some v) (some w) moves e = (w, refl, moves v w (ground arith))

  -- If the conversion takes every stored value, IterateStoreByPrefix returns, and moves each value as
  -- the conversion does.
  pub iterate_store_by_prefix-Moved :
      (fn : V → Result Panic V) (R : V → V → Type 0) (store : kv.Store V)
      → ((k : Bytes) (v : V) → kv.get k store ≡ some v → (w : V) × (fn v ≡ ok w))
      → ((v w : V) → fn v ≡ ok w → R v w)
      → let (result, after) = iterate_store_by_prefix fn store in
        (result ≡ ok tt) × ((k : Bytes) → Moved R (kv.get k store) (kv.get k after))
  unfolding iterate_store_by_prefix
  iterate_store_by_prefix-Moved fn R store takes moves =
      let done =
        iterate_entries-Returns fn (kv.entries store) store (kv.entries-IsUnique store)
          (λ k v found. takes k v (sym (kv.lookup-entries k store) ∙ found)) in
      (done, λ k. moved fn R _ _ moves (iterate_store_by_prefix-converts fn k store done))
