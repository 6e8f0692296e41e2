-- ===== src/Prelude/Results.antt =====
-- Python's exceptions, by their class, and pure code that may raise one.
use mathlib.Core.Path.{◌≡◌, refl, sym, ap, ◌∙◌}
use mathlib.Core.Logic.{◌⊎◌, inl, inr}
use sgidal_example.Prelude.Lists.{length, length-map, All}
use mathlib.Core.Bool.{Bool, true, false}
use mathlib.Core.Option.{Option, none, some}
use mathlib.Core.List.{List, [], ◌∷◌, map}

pub data Error : Type 0 where
  assertion_error key_error value_error index_error type_error unbound_local_error : Error
  http_error exception zero_division_error system_exit : Error

pub data Result {ℓ} (A : Type ℓ) : Type ℓ where
  ok : A → Result A
  raise : Error → Result A

-- The rest of a block runs where the first step returned.
infixl 5 ◌>>=◌ ◌>>◌
abbrev pub ◌>>=◌ {κ ℓ} : {B : Type κ} {A : Type ℓ} → Result B → (B → Result A) → Result A
◌>>=◌ first rest = elim first [ ok b ↦ rest b | raise error ↦ raise error ]

abbrev pub ◌>>◌ {ℓ} : {A : Type ℓ} → Result (Unit {0}) → Result A → Result A
◌>>◌ first rest = elim first [ ok _ ↦ rest | raise error ↦ raise error ]

-- `assert test`
abbrev pub assert : Bool → Result (Unit {0})
assert true = ok tt
assert false = raise assertion_error

-- A read that raises where there is nothing.
abbrev pub or_raise {ℓ} : {A : Type ℓ} → Option A → Error → Result A
or_raise none e = raise e
or_raise (some a) e = ok a

-- A comprehension whose element expression may raise: the first error ends it.
abbrev pub map_result {ℓ κ} : {A : Type ℓ} {B : Type κ} → (A → Result B) → List A → Result (List B)
map_result f [] = ok []
map_result f (x ∷ xs) = f x >>= λ y. map_result f xs >>= λ ys. ok (y ∷ ys)

pub Result-cases {ℓ} :
    {A : Type ℓ} (r : Result A) → ((a : A) × (r ≡ ok a)) ⊎ ((e : Error) × (r ≡ raise e))
Result-cases (ok a) = inl (a, refl)
Result-cases (raise e) = inr (e, refl)

module _ {ℓ κ} {A : Type ℓ} {B : Type κ} (f : A → Result B) where
  -- A successful comprehension, seen through a function of its elements.
  pub map_result-map {μ} :
      {C : Type μ} (g : B → C) (k : A → C)
      → ((a : A) (b : B) → f a ≡ ok b → g b ≡ k a)
      → (xs : List A) (ys : List B) → map_result f xs ≡ ok ys
      → map g ys ≡ map k xs
  map_result-map g k s [] [] h = refl
  map_result-map g k s [] (y ∷ ys) h = absurd (cc)
  map_result-map g k s (x ∷ xs) ys h = elim (Result-cases (f x)) [
    | inl (b, e) ↦ elim (Result-cases (map_result f xs)) [
      | inl (bs, es) ↦
          let same : ys ≡ b ∷ bs = cc in rw same (cc (s x b e, map_result-map g k s xs bs es))
      | inr (er, es) ↦ absurd (cc)
    ]
    | inr (er, e) ↦ absurd (cc)
  ]

  -- The same number of elements come out.
  pub map_result-length :
      (xs : List A) (ys : List B) → map_result f xs ≡ ok ys → length ys ≡ length xs
  map_result-length xs ys h =
      sym (length-map (λ _. tt) ys)
      ∙ ap length (map_result-map {C = Unit {0}} (λ _. tt) (λ _. tt) (λ a b _. refl) xs ys h)
      ∙ length-map (λ _. tt) xs

  -- Where every element succeeds, so does the comprehension.
  pub map_result-ok :
      (g : A → B) (xs : List A) → All (λ a. f a ≡ ok (g a)) xs → map_result f xs ≡ ok (map g xs)
  map_result-ok g [] h = refl
  map_result-ok g (x ∷ xs) h = rw (h.0, map_result-ok g xs h.1)

pub or_raise-eq-ok {ℓ} :
    {A : Type ℓ} (o : Option A) (e : Error) {a : A} → or_raise o e ≡ ok a → o ≡ some a
or_raise-eq-ok none e h = cc
or_raise-eq-ok (some a) e h = cc

module _ {ℓ κ} {A : Type ℓ} {B : Type κ} (f : A → Result B) where
  pub map_result_total :
      (xs : List A)
      → All (λ a. (b : B) × (f a ≡ ok b)) xs
      → (ys : List B) × (map_result f xs ≡ ok ys)
  map_result_total [] h = ([], refl)
  map_result_total (x ∷ xs) h =
      let (b, e) = h.0 in let (ys, es) = map_result_total xs h.1 in (b ∷ ys, rw (e, es))

-- A sequence that returned: both steps did.
pub bind_ok {κ ℓ} :
    {B : Type κ} {A : Type ℓ} (r : Result B) (f : B → Result A) {a : A}
    → (r >>= f) ≡ ok a
    → (b : B) × (r ≡ ok b) × (f b ≡ ok a)
bind_ok (ok b) f h = (b, refl, h)
bind_ok (raise e) f h = absurd (cc)

pub ok_injective {ℓ} : {A : Type ℓ} {a b : A} → ok a ≡ ok b → a ≡ b
ok_injective h = cc
