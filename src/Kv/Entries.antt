-- ===== src/Kv/Entries.antt =====
-- What holds of every stored value holds along the entries of the store.
use composable_centauri.Base.{◌≡◌, some, List, [], ◌∷◌, arith}
use composable_centauri.Base.Bytes.{Bytes, eq_bytes_iff}
use composable_centauri.Kv.{Kv, lookup, IsUnique}

abbrev pub AllEntries : {V : Type 0} → (Bytes → V → Type 0) → List (Bytes × V) → Type 0
AllEntries P [] = Unit
AllEntries P ((k, v) ∷ l) = P k v × AllEntries P l

lookup-AllEntries :
    {V : Type 0} (P : Bytes → V → Type 0) (l : List (Bytes × V))
    → ((k : Bytes) (v : V) → lookup k l ≡ some v → P k v)
    → IsUnique l
    → AllEntries P l
unfolding lookup
lookup-AllEntries P [] h u = tt
lookup-AllEntries P ((k, v) ∷ l) h u = (
  h k v (ground (arith, eq_bytes_iff k k)),
  lookup-AllEntries P l (λ j w e. h j w (ground (arith, eq_bytes_iff k j))) u.1,
)

pub entries_all :
    ⦃kv : Kv⦄ {V : Type 0} (P : Bytes → V → Type 0) (s : kv.Store V)
    → ((k : Bytes) (v : V) → kv.get k s ≡ some v → P k v)
    → AllEntries P (kv.entries s)
entries_all ⦃kv⦄ P s h =
    lookup-AllEntries P (kv.entries s) (λ k v e. h k v (rw (← kv.lookup-entries k s) e))
      (kv.entries-IsUnique s)
