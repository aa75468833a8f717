-- ===== src/Base/Decimal.antt =====
-- Decimal numbers as text: `%d` of fmt, strconv.ParseUint with base 10 and 64 bits, strings.Split.
use composable_centauri.Base.{
  ℕ, zero, suc, ◌+◌, ◌-◌, ◌*◌, ◌/◌, ◌%◌, ◌^◌, ◌<◌, ◌≡◌, refl, ◌&&◌, Option, none, some, List, [],
  ◌∷◌, ◌++◌, arith, leb, ltb, ◌==◌, if◌then◌else◌, Bool-cases, inl, inr, ap, ◌∙◌, ◌≢◌,
}
use composable_centauri.Base.Bytes.{Bytes}
use native.Mathlib.Nat.{pow-suc}

-- The digits of a number with at most as many digits as the fuel.
unfoldable pub digits : ℕ → ℕ → Bytes
digits zero n = []
digits (suc fuel) n =
    let more = digits fuel (n / 10) ++ (48 + n % 10) ∷ [] in
    if ltb n 10 then (48 + n) ∷ [] else more

-- `%d` of a uint64: twenty digits are enough.
unfoldable pub print_uint64 : ℕ → Bytes
unfolding digits
print_uint64 n = digits 20 n

unfoldable pub parse_digits : ℕ → Bytes → Option ℕ
parse_digits acc [] = some acc
parse_digits acc (b ∷ bs) =
    let rest = parse_digits (acc * 10 + (b - 48)) bs in if leb 48 b && leb b 57 then rest else none

-- A value that fits 64 bits.
unfoldable pub within_uint64 : Option ℕ → Option ℕ
within_uint64 none = none
within_uint64 (some n) = if ltb n (2 ^ 64) then some n else none

-- strconv.ParseUint(text, 10, 64), none where it returns an error.
unfoldable pub parse_uint : Bytes → Option ℕ
unfolding parse_digits within_uint64
parse_uint [] = none
parse_uint (b ∷ bs) = within_uint64 (parse_digits 0 (b ∷ bs))

-- strings.Split by one byte: the text before the first separator, and the pieces after it.
unfoldable pub split_first : ℕ → Bytes → Bytes × List Bytes
split_first separator [] = ([], [])
split_first separator (b ∷ bs) =
    let (piece, pieces) = split_first separator bs in
    if b == separator then ([], piece ∷ pieces) else (b ∷ piece, pieces)

unfoldable pub split : ℕ → Bytes → List Bytes
unfolding split_first
split separator text = let (piece, pieces) = split_first separator text in piece ∷ pieces

parse_digits-append :
    (acc v : ℕ) (xs : Bytes) (d : ℕ)
    → d < 10
    → parse_digits acc xs ≡ some v
    → parse_digits acc (xs ++ (48 + d) ∷ []) ≡ some (v * 10 + d)
unfolding parse_digits
parse_digits-append acc v [] d h e = ground arith
parse_digits-append acc v (b ∷ bs) d h e =
    ground (arith, parse_digits-append (acc * 10 + (b - 48)) v bs d h)

step_bound : (fuel n : ℕ) → n < 10 ^ suc fuel → n / 10 < 10 ^ fuel
step_bound fuel n h = omega (arith, pow-suc 10 fuel)

parse_digits-digits : (fuel n : ℕ) → n < 10 ^ fuel → parse_digits 0 (digits fuel n) ≡ some n
unfolding digits parse_digits
parse_digits-digits zero n h = ground arith
parse_digits-digits (suc fuel) n h = elim (Bool-cases (ltb n 10)) [
  | inl one_digit ↦ ground arith
  | inr more ↦
      rw
        (
          more,
          parse_digits-append 0 (n / 10) (digits fuel (n / 10)) (n % 10) (omega arith)
              (parse_digits-digits fuel (n / 10) (step_bound fuel n h)),
        )
        (ap some (omega arith))
]

parse_uint-append :
    (xs : Bytes) (d : ℕ) → parse_uint (xs ++ d ∷ []) ≡ within_uint64 (parse_digits 0 (xs ++ d ∷ []))
unfolding parse_uint
parse_uint-append [] d = refl
parse_uint-append (x ∷ xs) d = refl

parse_uint-digits :
    (fuel n : ℕ)
    → parse_uint (digits (suc fuel) n) ≡ within_uint64 (parse_digits 0 (digits (suc fuel) n))
unfolding digits
parse_uint-digits fuel n = elim (Bool-cases (ltb n 10)) [
  | inl one_digit ↦ rw one_digit (parse_uint-append [] (48 + n))
  | inr more ↦ rw more (parse_uint-append (digits fuel (n / 10)) (48 + n % 10))
]

within_uint64-some : (n : ℕ) → n < 2 ^ 64 → within_uint64 (some n) ≡ some n
unfolding within_uint64
within_uint64-some n h = ground arith

-- Twenty digits are enough for every uint64, and what was printed is read back.
pub parse_uint-print_uint64 : (n : ℕ) → n < 2 ^ 64 → parse_uint (print_uint64 n) ≡ some n
unfolding print_uint64
parse_uint-print_uint64 n h =
    parse_uint-digits 19 n ∙ rw (parse_digits-digits 20 n (omega arith)) (within_uint64-some n h)

-- A byte that does not occur.
abbrev pub Lacks : ℕ → Bytes → Type 0
Lacks b [] = Unit
Lacks b (c ∷ cs) = (c ≢ b) × Lacks b cs

pub Lacks-append : (b : ℕ) (xs ys : Bytes) → Lacks b xs → Lacks b ys → Lacks b (xs ++ ys)
Lacks-append b [] ys h k = k
Lacks-append b (x ∷ xs) ys h k = (h.0, Lacks-append b xs ys h.1 k)

digits-Lacks : (b fuel n : ℕ) → b < 48 → Lacks b (digits fuel n)
unfolding digits
digits-Lacks b zero n h = tt
digits-Lacks b (suc fuel) n h = elim (Bool-cases (ltb n 10)) [
  | inl one_digit ↦ rw one_digit (omega arith, tt)
  | inr more ↦ rw more (
      Lacks-append b (digits fuel (n / 10)) ((48 + n % 10) ∷ []) (digits-Lacks b fuel (n / 10) h)
        (omega arith, tt))
]

pub print_uint64-Lacks : (b n : ℕ) → b < 48 → Lacks b (print_uint64 n)
unfolding print_uint64
print_uint64-Lacks b n h = digits-Lacks b 20 n h

split_first-Lacks : (b : ℕ) (xs : Bytes) → Lacks b xs → split_first b xs ≡ (xs, [])
unfolding split_first
split_first-Lacks b [] h = refl
split_first-Lacks b (x ∷ xs) h = ground (arith, split_first-Lacks b xs h.1)

split_first-append :
    (b : ℕ) (xs ys : Bytes) → Lacks b xs → Lacks b ys → split_first b (xs ++ b ∷ ys) ≡ (xs, ys ∷ [])
unfolding split_first
split_first-append b [] ys h k = ground (arith, split_first-Lacks b ys k)
split_first-append b (x ∷ xs) ys h k = ground (arith, split_first-append b xs ys h.1 k)

-- Two pieces without the separator are split where it stands between them.
pub split-append :
    (b : ℕ) (xs ys : Bytes) → Lacks b xs → Lacks b ys → split b (xs ++ b ∷ ys) ≡ xs ∷ ys ∷ []
unfolding split
split-append b xs ys h k = ground (arith, split_first-append b xs ys h k)

not-Lacks-middle : (b : ℕ) (xs ys : Bytes) → ¬ Lacks b (xs ++ b ∷ ys)
not-Lacks-middle b [] ys h = h.0 refl
not-Lacks-middle b (x ∷ xs) ys h = not-Lacks-middle b xs ys h.1

-- The last separator of a text determines what stands before and after it.
pub last_separator :
    (b : ℕ) (xs us ys vs : Bytes)
    → Lacks b ys
    → Lacks b vs
    → xs ++ b ∷ ys ≡ us ++ b ∷ vs
    → (xs ≡ us) × (ys ≡ vs)
last_separator b [] [] ys vs h k e = (refl, cc)
last_separator b [] (u ∷ us) ys vs h k e =
    let same : ys ≡ us ++ b ∷ vs = cc in absurd (not-Lacks-middle b us vs (rw same at h))
last_separator b (x ∷ xs) [] ys vs h k e =
    let same : vs ≡ xs ++ b ∷ ys = cc in absurd (not-Lacks-middle b xs ys (rw same at k))
last_separator b (x ∷ xs) (u ∷ us) ys vs h k e =
    let rest : xs ++ b ∷ ys ≡ us ++ b ∷ vs = cc in
    let (front, back) = last_separator b xs us ys vs h k rest in (cc, back)
