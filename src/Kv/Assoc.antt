-- ===== src/Kv/Assoc.antt =====
-- A store as a list of entries in key order: it shows that the laws of `Kv` can be met, and runs.
use composable_centauri.Base.{
  ◌≡◌, refl, Option, none, some, Bool, true, false, ◌&&◌, ◌||◌, List, [], ◌∷◌, arith, ltb, ◌==◌,
  if◌then◌else◌,
}
use composable_centauri.Base.Bytes.{Bytes, eq_bytes, eq_bytes_iff, eq_bytes_refl}
use composable_centauri.Kv.{Kv, lookup, IsUnique}

-- The order of keys: byte by byte, a prefix first.
unfoldable pub lt_bytes : Bytes → Bytes → Bool
lt_bytes [] [] = false
lt_bytes [] (y ∷ ys) = true
lt_bytes (x ∷ xs) [] = false
lt_bytes (x ∷ xs) (y ∷ ys) = ltb x y || (x == y && lt_bytes xs ys)

module _ {V : Type 0} where
  unfoldable pub without : Bytes → List (Bytes × V) → List (Bytes × V)
  without k [] = []
  without k ((j, v) ∷ l) = let rest = without k l in if eq_bytes k j then rest else (j, v) ∷ rest

  unfoldable pub insert : Bytes → V → List (Bytes × V) → List (Bytes × V)
  unfolding lt_bytes
  insert k v [] = (k, v) ∷ []
  insert k v ((j, w) ∷ l) =
      let rest = insert k v l in if lt_bytes k j then (k, v) ∷ (j, w) ∷ l else (j, w) ∷ rest

  lookup-without :
      (k j : Bytes) (l : List (Bytes × V))
      → lookup j (without k l) ≡ (if eq_bytes k j then none else lookup j l)
  unfolding lookup without
  lookup-without k j [] = ground arith
  lookup-without k j ((i, v) ∷ l) =
      ground (arith, lookup-without k j l, eq_bytes_iff i j, eq_bytes_iff k i, eq_bytes_iff k j)

  lookup-insert :
      (k j : Bytes) (v : V) (l : List (Bytes × V))
      → lookup k l ≡ none
      → lookup j (insert k v l) ≡ (if eq_bytes k j then some v else lookup j l)
  unfolding lookup insert
  lookup-insert k j v [] h = refl
  lookup-insert k j v ((i, w) ∷ l) h =
      ground (arith, lookup-insert k j v l, eq_bytes_iff i j, eq_bytes_iff i k, eq_bytes_iff k j)

  pub without-IsUnique : (k : Bytes) (l : List (Bytes × V)) → IsUnique l → IsUnique (without k l)
  unfolding without
  without-IsUnique k [] u = tt
  without-IsUnique k ((i, w) ∷ l) u =
      ground (arith, without-IsUnique k l u.1, lookup-without k i l, eq_bytes_iff k i)

  pub insert-IsUnique :
      (k : Bytes) (v : V) (l : List (Bytes × V))
      → lookup k l ≡ none
      → IsUnique l
      → IsUnique (insert k v l)
  unfolding insert lookup
  insert-IsUnique k v [] h u = (refl, tt)
  insert-IsUnique k v ((i, w) ∷ l) h u =
      ground
        (arith, insert-IsUnique k v l, lookup-insert k i v l, eq_bytes_iff i k, eq_bytes_iff k i)

-- A list of entries with no key twice.
pub record Entries (V : Type 0) : Type 0 where
  pub items : List (Bytes × V)
  pub unique : IsUnique items

unfoldable pub no_entries : {V : Type 0} → Entries V
no_entries = record { items = []; unique = tt }

unfoldable pub get : {V : Type 0} → Bytes → Entries V → Option V
unfolding lookup eq_bytes
get k s = lookup k s.items

pub lookup-without_self :
    {V : Type 0} (k : Bytes) (l : List (Bytes × V)) → lookup k (without k l) ≡ none
lookup-without_self k l = ground (arith, lookup-without k k l, eq_bytes_refl k)

unfoldable pub delete : {V : Type 0} → Bytes → Entries V → Entries V
unfolding without eq_bytes
delete k s = record { items = without k s.items; unique = without-IsUnique k s.items s.unique }

unfoldable pub set : {V : Type 0} → Bytes → V → Entries V → Entries V
unfolding without insert eq_bytes
set k v s = record {
  items = insert k v (without k s.items);
  unique =
      insert-IsUnique k v (without k s.items) (lookup-without_self k s.items)
        (without-IsUnique k s.items s.unique);
}

pub get-set :
    {V : Type 0} (k j : Bytes) (v : V) (s : Entries V)
    → get j (set k v s) ≡ (if eq_bytes k j then some v else get j s)
unfolding get set
get-set k j v s = ground (
  arith,
  lookup-insert k j v (without k s.items) (lookup-without_self k s.items),
  lookup-without k j s.items,
)

pub get-delete :
    {V : Type 0} (k j : Bytes) (s : Entries V)
    → get j (delete k s) ≡ (if eq_bytes k j then none else get j s)
unfolding get delete
get-delete k j s = lookup-without k j s.items

pub lookup-entries : {V : Type 0} (k : Bytes) (s : Entries V) → lookup k s.items ≡ get k s
unfolding get
lookup-entries k s = refl

pub get-empty : {V : Type 0} (k : Bytes) → get k (no_entries {V = V}) ≡ none
unfolding get no_entries
get-empty k = refl

instance abbrev pub assoc_kv : Kv
assoc_kv = record {
  Store = Entries;
  empty = no_entries;
  get = get;
  set = set;
  delete = delete;
  entries = λ s. s.items;
  get-empty = get-empty;
  get-set = get-set;
  get-delete = get-delete;
  lookup-entries = lookup-entries;
  entries-IsUnique = λ s. s.unique;
}
