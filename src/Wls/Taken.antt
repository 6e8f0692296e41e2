-- ===== src/Wls/Taken.antt =====
-- Indexing by a list, element by element operations, and the lengths of what they give.
use sgidal_example.Prelude.{
  ◌==◌, length, get_elem?, All, lt_of_get_elem?, get_elem?-lt, take, drop, zip_with, ok, ℕ, zero,
  suc, ◌+◌, ◌<◌, ◌≡◌, refl, sym, ap, ◌∙◌, subst, true, some, List, [], ◌∷◌, ◌++◌, map, arith,
}
use sgidal_example.Wls.Arrays.{take_at, broadcast}

module _ {ℓ} {A : Type ℓ} where
  -- What indexing by a list gives.
  pub record IsTaken (xs : List A) (ks : List ℕ) (ys : List A) : Type ℓ where
    pub taken : take_at xs ks ≡ ok ys
    pub as_many : length ys ≡ length ks
    pub each : (j k : ℕ) → get_elem? ks j ≡ some k → get_elem? ys j ≡ get_elem? xs k

  pub take_at-IsTaken :
      (xs : List A) (ks : List ℕ) → All (λ k. k < length xs) ks → (ys : List A) × IsTaken xs ks ys
  unfolding take_at
  take_at-IsTaken xs [] h =
      ([], record { taken = refl; as_many = refl; each = λ j k e. absurd (cc) })
  take_at-IsTaken xs (k ∷ ks) h =
      let (y, e) = get_elem?-lt xs k h.0 in
      let (ys, t) = take_at-IsTaken xs ks h.1 in
      (
        y ∷ ys,
        record {
          taken = rw (e, t.taken) refl;
          as_many = ap suc t.as_many;
          each = each_of k y e ys ks t.each;
        },
      )
    where
      each_of :
          (k : ℕ) (y : A)
          → get_elem? xs k ≡ some y
          → (ys : List A) (ks : List ℕ)
          → ((j i : ℕ) → get_elem? ks j ≡ some i → get_elem? ys j ≡ get_elem? xs i)
          → (j i : ℕ) → get_elem? (k ∷ ks) j ≡ some i
          → get_elem? (y ∷ ys) j ≡ get_elem? xs i
      each_of k y e ys ks f zero i h = cc
      each_of k y e ys ks f (suc j) i h = f j i h

  pub All-get_elem? {κ} :
      (P : A → Type κ) (xs : List A) (i : ℕ) (x : A) → All P xs → get_elem? xs i ≡ some x → P x
  All-get_elem? P [] i x h e = absurd (cc)
  All-get_elem? P (y ∷ xs) zero x h e = let same : y ≡ x = cc in subst P same h.0
  All-get_elem? P (y ∷ xs) (suc i) x h e = All-get_elem? P xs i x h.1 e

  All-of_get_elem? {κ} :
      (P : A → Type κ) (xs : List A) → ((i : ℕ) (x : A) → get_elem? xs i ≡ some x → P x) → All P xs
  All-of_get_elem? P [] h = tt
  All-of_get_elem? P (x ∷ xs) h = (h 0 x refl, All-of_get_elem? P xs (λ i. h (suc i)))

  -- What holds at every element holds at those that are taken.
  pub IsTaken-All {κ} :
      (P : A → Type κ) (xs : List A) (ks : List ℕ) (ys : List A)
      → IsTaken xs ks ys
      → All P xs
      → All P ys
  IsTaken-All P xs ks ys t h = All-of_get_elem? P ys (λ i y e.
      let (k, at) = get_elem?-lt ks i (omega (arith, lt_of_get_elem? ys i y e, t.as_many)) in
      All-get_elem? P xs k y h (sym (t.each i k at) ∙ e))

  pub length-take-add : (n m : ℕ) (xs : List A) → length xs ≡ n + m → length (take n xs) ≡ n
  length-take-add zero m xs h = refl
  length-take-add (suc n) m [] h = absurd (omega arith)
  length-take-add (suc n) m (x ∷ xs) h = ap suc (length-take-add n m xs (omega arith))

  pub length-drop-add : (n m : ℕ) (xs : List A) → length xs ≡ n + m → length (drop n xs) ≡ m
  length-drop-add zero m xs h = omega arith
  length-drop-add (suc n) m [] h = absurd (omega arith)
  length-drop-add (suc n) m (x ∷ xs) h = length-drop-add n m xs (omega arith)

  pub take-append_self : (xs ys : List A) → take (length xs) (xs ++ ys) ≡ xs
  take-append_self [] ys = refl
  take-append_self (x ∷ xs) ys = ap (◌∷◌ x) (take-append_self xs ys)

  pub drop-append_self : (xs ys : List A) → drop (length xs) (xs ++ ys) ≡ ys
  drop-append_self [] ys = refl
  drop-append_self (x ∷ xs) ys = drop-append_self xs ys

module _ {ℓ κ μ} {A : Type ℓ} {B : Type κ} {C : Type μ} (f : A → B → C) where
  pub length-zip_with :
      (xs : List A) (ys : List B) → length xs ≡ length ys → length (zip_with f xs ys) ≡ length ys
  length-zip_with [] [] h = refl
  length-zip_with [] (y ∷ ys) h = absurd (omega arith)
  length-zip_with (x ∷ xs) [] h = absurd (omega arith)
  length-zip_with (x ∷ xs) (y ∷ ys) h = ap suc (length-zip_with xs ys (omega arith))

  pub get_elem?-zip_with :
      (xs : List A) (ys : List B) (j : ℕ) (x : A) (y : B)
      → get_elem? xs j ≡ some x
      → get_elem? ys j ≡ some y
      → get_elem? (zip_with f xs ys) j ≡ some (f x y)
  get_elem?-zip_with [] ys j x y p q = absurd (cc)
  get_elem?-zip_with (a ∷ xs) [] j x y p q = absurd (cc)
  get_elem?-zip_with (a ∷ xs) (b ∷ ys) zero x y p q = cc
  get_elem?-zip_with (a ∷ xs) (b ∷ ys) (suc j) x y p q = get_elem?-zip_with xs ys j x y p q

pub broadcast-even :
    {A B C : Type 0} (f : A → B → C) (xs : List A) (ys : List B)
    → length xs ≡ length ys
    → broadcast f xs ys ≡ ok (zip_with f xs ys)
unfolding broadcast
broadcast-even f xs ys h =
    rw (let t : (length xs == length ys) ≡ true = ground (arith, h) in t) refl

pub get_elem?-map {ℓ κ} :
    {A : Type ℓ} {B : Type κ} (f : A → B) (xs : List A) (j : ℕ) (x : A)
    → get_elem? xs j ≡ some x
    → get_elem? (map f xs) j ≡ some (f x)
get_elem?-map f [] j x h = absurd (cc)
get_elem?-map f (y ∷ xs) zero x h = cc
get_elem?-map f (y ∷ xs) (suc j) x h = get_elem?-map f xs j x h

pub get_elem?-append_left {ℓ} :
    {A : Type ℓ} (xs ys : List A) (j : ℕ) (x : A)
    → get_elem? xs j ≡ some x
    → get_elem? (xs ++ ys) j ≡ some x
get_elem?-append_left [] ys j x h = absurd (cc)
get_elem?-append_left (y ∷ xs) ys zero x h = h
get_elem?-append_left (y ∷ xs) ys (suc j) x h = get_elem?-append_left xs ys j x h

pub get_elem?-append_right {ℓ} :
    {A : Type ℓ} (xs ys : List A) (j : ℕ) → get_elem? (xs ++ ys) (length xs + j) ≡ get_elem? ys j
get_elem?-append_right [] ys j = ap (get_elem? ys) (omega arith)
get_elem?-append_right (x ∷ xs) ys j =
    ap (get_elem? (x ∷ xs ++ ys))
      (let e : suc (length xs) + j ≡ suc (length xs + j) = omega arith in e)
    ∙ get_elem?-append_right xs ys j
