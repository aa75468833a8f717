-- ===== src/Migration/Allowed.antt =====
-- The migration of the stores whose keys are addresses: the allowed relayers
-- (bech32-migration/transfermiddleware) and those who may fund the mint's pool
-- (bech32-migration/mint). The key that is found is the address: the first occurrence of the prefix,
-- which is taken out of it, is the prefix itself.
use composable_centauri.Base.{
  ◌≡◌, ◌⊎◌, ◌↔◌, inl, inr, Bool-cases, true, some, List, [], ◌∷◌, arith, ℕ,
}
use composable_centauri.Base.Bytes.{Bytes, eq_bytes, eq_bytes_iff}
use composable_centauri.Base.Exec.{ok, Exec, pure, lift, modify, Result-cases, ◌>>=◌, ◌>>◌}
use composable_centauri.Kv.{Kv, has, lookup}
use composable_centauri.Migration.Addresses.{Panic, Bech32, convert_acc_addr}

module _ ⦃kv : Kv⦄ ⦃bech32 : Bech32⦄ where
  -- The loop, over the entries from the iterator's place on. The old entries stay.
  unfoldable pub convert_keys : List (Bytes × ℕ) → Exec Panic (kv.Store ℕ) (Unit {0})
  convert_keys [] = pure tt
  convert_keys ((address, _) ∷ entries) = do
    new_prefix_addr ← lift (convert_acc_addr address)
    modify (kv.set new_prefix_addr 1)
    convert_keys entries

  -- MigrateAddressBech32 of transfermiddleware and of mint, on the store of the addresses
  unfoldable pub migrate_allowed : Exec Panic (kv.Store ℕ) (Unit {0})
  unfolding convert_keys
  migrate_allowed store = convert_keys (kv.entries store) store

  convert_keys-keeps :
      (a : Bytes) (l : List (Bytes × ℕ)) (s : kv.Store ℕ)
      → has a s ≡ true
      → has a (convert_keys l s).1 ≡ true
  unfolding convert_keys
  convert_keys-keeps a [] s h = h
  convert_keys-keeps a ((j, v) ∷ l) s h = elim (Result-cases (convert_acc_addr j)) [
    | inr (x, bad) ↦ ground arith
    | inl (w, good) ↦ ground (arith, convert_keys-keeps a l (kv.set w 1 s), kv.get-set w a 1 s)
  ]

  convert_keys-adds :
      (old new : Bytes) (v : ℕ) (l : List (Bytes × ℕ)) (s : kv.Store ℕ)
      → (convert_keys l s).0 ≡ ok tt
      → lookup old l ≡ some v
      → convert_acc_addr old ≡ ok new
      → has new (convert_keys l s).1 ≡ true
  unfolding convert_keys lookup
  convert_keys-adds old new v [] s done found conv = absurd (ground arith)
  convert_keys-adds old new v ((j, u) ∷ l) s done found conv =
      elim (Result-cases (convert_acc_addr j)) [
        | inr (x, bad) ↦ absurd (ground arith)
        | inl (w, good) ↦ ground (
          arith,
          convert_keys-adds old new v l (kv.set w 1 s),
          convert_keys-keeps new l (kv.set w 1 s),
          kv.get-set w new 1 s,
          eq_bytes_iff j old,
          eq_bytes_iff w new,
        )
      ]

  -- An address that was there, or the converted form of one of the list.
  abbrev pub IsOldOrConverted : Bytes → List (Bytes × ℕ) → kv.Store ℕ → Type 0
  IsOldOrConverted a l s =
      (has a s ≡ true)
      ⊎ ((old : Bytes) × (v : ℕ) × (lookup old l ≡ some v) × (convert_acc_addr old ≡ ok a))

  convert_keys-only :
      (a : Bytes) (l : List (Bytes × ℕ)) (s : kv.Store ℕ)
      → has a (convert_keys l s).1 ≡ true
      → IsOldOrConverted a l s
  unfolding convert_keys lookup
  convert_keys-only a [] s h = inl h
  convert_keys-only a ((j, u) ∷ l) s h = elim (Result-cases (convert_acc_addr j)) [
    | inr (x, bad) ↦ inl (ground arith)
    | inl (w, good) ↦ elim (convert_keys-only a l (kv.set w 1 s) (ground arith)) [
      | inr (old, v, found, conv) ↦ elim (Bool-cases (eq_bytes j old)) [
        | inl same ↦ inr (old, u, ground arith, conv)
        | inr other ↦ inr (old, v, ground arith, conv)
      ]
      | inl before ↦ elim (Bool-cases (eq_bytes w a)) [
        | inl same ↦ inr (j, u, ground (arith, eq_bytes_iff j j), ground (arith, eq_bytes_iff w a))
        | inr other ↦ inl (ground (arith, kv.get-set w a 1 s))
      ]
    ]
  ]

  entries-IsOldOrConverted :
      (a : Bytes) (s : kv.Store ℕ)
      → IsOldOrConverted a (kv.entries s) s
      → (migrate_allowed s).0 ≡ ok tt
      → has a (migrate_allowed s).1 ≡ true
  unfolding migrate_allowed
  entries-IsOldOrConverted a s (inl before) done = convert_keys-keeps a (kv.entries s) s before
  entries-IsOldOrConverted a s (inr (old, v, found, conv)) done =
      convert_keys-adds old a v (kv.entries s) s done found conv

  -- After a migration of the allowed addresses that does not panic, an address is allowed exactly if it
  -- was allowed before, or is what an address that was allowed before is converted to.
  pub migrate_allowed-exact :
      (a : Bytes) (s : kv.Store ℕ)
      → (migrate_allowed s).0 ≡ ok tt
      → (has a (migrate_allowed s).1 ≡ true) ↔ IsOldOrConverted a (kv.entries s) s
  unfolding migrate_allowed
  migrate_allowed-exact a s done =
      (convert_keys-only a (kv.entries s) s, λ h. entries-IsOldOrConverted a s h done)
