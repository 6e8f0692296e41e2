-- ===== src/Prelude/Exec.antt =====
-- Methods that mutate an object and may raise. What was written before a raise stays written, so
-- the object comes back beside the error too.
use mathlib.Core.Path.{◌≡◌, refl, ap}
use mathlib.Core.Bool.{Bool}
use mathlib.Core.List.{List, [], ◌∷◌}
use sgidal_example.Prelude.Results.{Error, Result, ok, raise, assert as assert_result}

abbrev pub Exec {ℓ κ} : Type ℓ → Type κ → Type (ℓ ⊔ κ)
Exec S A = S → Result A × S

module _ {ℓ κ} {S : Type ℓ} {A : Type κ} where
  abbrev pub pure : A → Exec S A
  pure a s = (ok a, s)

  abbrev pub throw : Error → Exec S A
  throw e s = (raise e, s)

  abbrev pub lift : Result A → Exec S A
  lift r s = (r, s)

  abbrev pub gets : (S → A) → Exec S A
  gets f s = (ok (f s), s)

  abbrev pub asks : (S → Result A) → Exec S A
  asks f s = (f s, s)

module _ {ℓ} {S : Type ℓ} where
  abbrev pub modify : (S → S) → Exec S (Unit {0})
  modify f s = (ok tt, f s)

  -- `assert test(self)`
  abbrev pub ensure : (S → Bool) → Exec S (Unit {0})
  ensure test s = (assert_result (test s), s)

infixl 5 ◌>>=◌ ◌>>◌
abbrev pub ◌>>=◌ {ℓ κ μ} :
    {S : Type ℓ} {A : Type κ} {B : Type μ} → Exec S A → (A → Exec S B) → Exec S B
◌>>=◌ m f s = let (r, s') = m s in elim r [ ok a ↦ f a s' | raise e ↦ (raise e, s') ]

abbrev pub ◌>>◌ {ℓ κ} : {S : Type ℓ} {B : Type κ} → Exec S (Unit {0}) → Exec S B → Exec S B
m >> k = m >>= λ _. k

-- A sequence whose first step returned.
module _ {ℓ κ μ} {S : Type ℓ} {A : Type κ} {B : Type μ} where
  pub bind-ok :
      (m : Exec S A) (f : A → Exec S B) {s s' : S} {a : A} → m s ≡ (ok a, s') → (m >>= f) s ≡ f a s'
  bind-ok m f {s} {s'} {a} h = ap (λ (p : Result A × S). ((λ (u : S). p) >>= f) s) h

-- What a step keeps, and what follows keeps where the step returned, the sequence keeps.
module _ {S A B : Type 0} (P : S → Type 0) (f : A → Exec S B) where
  pair-keeps :
      (s : S) (p : Result A × S)
      → P p.1
      → ((a : A) → p.0 ≡ ok a → P (f a p.1).1)
      → P (((λ (u : S). p) >>= f) s).1
  pair-keeps s (ok a, s') h k = k a refl
  pair-keeps s (raise e, s') h k = h

  pub bind-keeps :
      (m : Exec S A) (s : S)
      → P (m s).1
      → ((a : A) → (m s).0 ≡ ok a → P (f a (m s).1).1)
      → P ((m >>= f) s).1
  bind-keeps m s = pair-keeps s (m s)

-- A `for` loop.
abbrev pub for_each {ℓ κ} :
    {S : Type ℓ} {A : Type κ} → List A → (A → Exec S (Unit {0})) → Exec S (Unit {0})
for_each [] body = pure tt
for_each (x ∷ xs) body = let rest = for_each xs body in body x >> rest

-- A `for` loop that appends one value to a list on each round.
abbrev pub collect {ℓ κ μ} :
    {S : Type ℓ} {A : Type κ} {B : Type μ} → List A → (A → Exec S B) → Exec S (List B)
collect [] body = pure []
collect (x ∷ xs) body = let rest = collect xs body in body x >>= λ y. rest >>= λ ys. pure (y ∷ ys)
