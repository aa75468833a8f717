-- ===== src/Base/Exec.antt =====
-- Fallible calls that change a state. What was written before an error stays written: the state
-- comes back beside the error too.
use mathlib.Core.Path.{◌≡◌, refl, ap, ◌∙◌}
use mathlib.Core.Logic.{◌⊎◌, inl, inr}
use mathlib.Core.Bool.{Bool, true, false}
use mathlib.Core.Option.{Option, none, some}

pub data Result (E A : Type 0) : Type 0 where
  ok : A → Result E A
  err : E → Result E A

pub Result-cases :
    {E A : Type 0} (r : Result E A) → ((a : A) × (r ≡ ok a)) ⊎ ((e : E) × (r ≡ err e))
Result-cases (ok a) = inl (a, refl)
Result-cases (err e) = inr (e, refl)

abbrev pub Exec : Type 0 → Type 0 → Type 0 → Type 0
Exec E S A = S → Result E A × S

module _ {E S A : Type 0} where
  abbrev pub pure : A → Exec E S A
  pure a s = (ok a, s)

  abbrev pub raise : E → Exec E S A
  raise e s = (err e, s)

  abbrev pub lift : Result E A → Exec E S A
  lift r s = (r, s)

  abbrev pub gets : (S → A) → Exec E S A
  gets f s = (ok (f s), s)

  abbrev pub or_raise : Option A → E → Exec E S A
  or_raise none e = raise e
  or_raise (some a) e = pure a

module _ {E S : Type 0} where
  abbrev pub modify : (S → S) → Exec E S (Unit {0})
  modify f s = (ok tt, f s)

  abbrev pub raise_if : Bool → E → Exec E S (Unit {0})
  raise_if true e = raise e
  raise_if false e = pure tt

infixl 5 ◌>>=◌ ◌>>◌
abbrev pub ◌>>=◌ : {E S A B : Type 0} → Exec E S A → (A → Exec E S B) → Exec E S B
◌>>=◌ m f s = let (r, s') = m s in elim r [ ok a ↦ f a s' | err e ↦ raise e s' ]

abbrev pub ◌>>◌ : {E S A B : Type 0} → Exec E S A → Exec E S B → Exec E S B
m >> k = m >>= λ _. k

-- `if err := check; err != nil { return err }` for a check without state.
abbrev pub ensure : {E : Type 0} → Bool → E → Result E (Unit {0})
ensure true e = ok tt
ensure false e = err e

-- What holds before a guarded call and after the call holds after both.
pub raise_if-keeps :
    {E S A : Type 0} (P : S → Type 0) (b : Bool) (e : E) (m : Exec E S A) (s : S)
    → P s
    → P (m s).1
    → P ((raise_if b e >> m) s).1
raise_if-keeps P true e m s h k = h
raise_if-keeps P false e m s h k = k

-- A call that returned hands its state on.
then-returned :
    {E S A B : Type 0} (x : Result E A × S) (k : Exec E S B) {a : A}
    → x.0 ≡ ok a
    → ((λ _. x) >> k) x.1 ≡ k x.1
then-returned (ok b, t) k e = refl
then-returned (err b, t) k e = cc

pub then-ok :
    {E S A B : Type 0} (m : Exec E S A) (k : Exec E S B) {a : A} (s : S)
    → (m s).0 ≡ ok a
    → (m >> k) s ≡ k (m s).1
then-ok m k s e = then-returned (m s) k e

module _ {E S A B : Type 0} where
  returned-same :
      (x : Result E A × S) (k l : Exec E S B)
      → ((s : S) → k s ≡ l s)
      → ((λ _. x) >> k) x.1 ≡ ((λ _. x) >> l) x.1
  returned-same (ok a, s) k l h = h s
  returned-same (err e, s) k l h = refl

  -- Two calls that do the same, followed by two that do the same.
  pub then-same :
      (m n : Exec E S A) (k l : Exec E S B) (s : S)
      → m s ≡ n s
      → ((t : S) → k t ≡ l t)
      → (m >> k) s ≡ (n >> l) s
  then-same m n k l s e h = returned-same (m s) k l h ∙ ap (λ x. ((λ _. x) >> l) s) e

  returned_assoc :
      {C : Type 0} (x : Result E A × S) (k : Exec E S B) (l : Exec E S C)
      → (((λ _. x) >> k) >> l) x.1 ≡ ((λ _. x) >> (k >> l)) x.1
  returned_assoc (ok a, s) k l = refl
  returned_assoc (err e, s) k l = refl

  pub then_assoc :
      {C : Type 0} (m : Exec E S A) (k : Exec E S B) (l : Exec E S C) (s : S)
      → ((m >> k) >> l) s ≡ (m >> (k >> l)) s
  then_assoc m k l s = returned_assoc (m s) k l

returned-unit : {E S : Type 0} (x : Result E (Unit {0}) × S) → ((λ _. x) >> pure tt) x.1 ≡ x
returned-unit (ok tt, s) = refl
returned-unit (err e, s) = refl

pub then-unit : {E S : Type 0} (m : Exec E S (Unit {0})) (s : S) → (m >> pure tt) s ≡ m s
then-unit m s = returned-unit (m s)

-- What a call came to: a value or an error, and the state that it left.
pub Exec-cases :
    {E S A : Type 0} (x : Result E A × S)
    → ((a : A) × (t : S) × (x ≡ (ok a, t))) ⊎ ((e : E) × (t : S) × (x ≡ (err e, t)))
Exec-cases (ok a, t) = inl (a, t, refl)
Exec-cases (err e, t) = inr (e, t, refl)
