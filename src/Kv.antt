-- ===== src/Kv.antt =====
-- The key-value store that a module of the chain keeps its state in. The store is a library's and
-- not in this repository, so it is an interface here: operations with the laws that the keepers
-- rely on. A keeper's records stand in the store marshalled; the model keeps the values themselves.
-- Each sub-store of a keeper (a key prefix of its own) is a `Store` of its own.
pub mod Assoc
pub mod Entries
use composable_centauri.Base.{
  ◌≡◌, Option, none, some, Bool, List, [], ◌∷◌, true, false, if◌then◌else◌,
}
use composable_centauri.Base.Bytes.{Bytes, eq_bytes}

-- The entry under a key in a list of entries.
unfoldable pub lookup {ℓ} : {V : Type ℓ} → Bytes → List (Bytes × V) → Option V
lookup k [] = none
lookup k ((j, v) ∷ l) = if eq_bytes j k then some v else lookup k l

-- No key is listed twice.
abbrev pub IsUnique {ℓ} : {V : Type ℓ} → List (Bytes × V) → Type ℓ
IsUnique [] = Unit
IsUnique ((k, v) ∷ l) = (lookup k l ≡ none) × IsUnique l

pub record Kv : Type 1 where
  pub Store : Type 0 → Type 0
  pub empty : {V : Type 0} → Store V
  pub get : {V : Type 0} → Bytes → Store V → Option V
  pub set : {V : Type 0} → Bytes → V → Store V → Store V
  pub delete : {V : Type 0} → Bytes → Store V → Store V
  -- The entries that an iterator over the whole store meets, in its order.
  pub entries : {V : Type 0} → Store V → List (Bytes × V)
  pub get-empty : {V : Type 0} (k : Bytes) → get k (empty {V = V}) ≡ none
  pub get-set :
      {V : Type 0} (k j : Bytes) (v : V) (s : Store V)
      → get j (set k v s) ≡ (if eq_bytes k j then some v else get j s)
  pub get-delete :
      {V : Type 0} (k j : Bytes) (s : Store V)
      → get j (delete k s) ≡ (if eq_bytes k j then none else get j s)
  pub lookup-entries : {V : Type 0} (k : Bytes) (s : Store V) → lookup k (entries s) ≡ get k s
  pub entries-IsUnique : {V : Type 0} (s : Store V) → IsUnique (entries s)

module _ ⦃kv : Kv⦄ {V : Type 0} where
  -- Has
  abbrev pub has : Bytes → kv.Store V → Bool
  has k s = elim (kv.get k s) [ none ↦ false | some _ ↦ true ]

  -- A read that leaves the zero value where nothing is stored.
  abbrev pub get_or : Bytes → kv.Store V → V → V
  get_or k s zero_value = elim (kv.get k s) [ none ↦ zero_value | some v ↦ v ]
