-- ===== src/Wls/Marked.antt =====
-- The rows of the Jacobian for the voltages: the ones that are set in the flat array, row by row.
use sgidal_example.Prelude.{
  ltb, length, set, replicate, All, length-append, length-replicate, length-set, length-map, ok, ℕ,
  zero, suc, ◌+◌, ◌*◌, ◌<◌, ◌≡◌, refl, sym, ap, ◌∙◌, subst, true, List, [], ◌∷◌, ◌++◌, map, arith,
}
use sgidal_example.Wls.Model.{mark, mark_all, reshape}
use sgidal_example.Wls.Taken.{take-append_self, drop-append_self}
use mathlib.Core.List.{append_assoc}

suc-mul : (l n : ℕ) → suc l * n ≡ n + l * n
suc-mul l n = omega arith

module _ {A : Type 0} where
  -- The row of zeros with a one at place `k`.
  abbrev pub unit_row : A → A → ℕ → ℕ → List A
  unit_row z one n k = set (replicate n z) k one

  abbrev joined : List (List A) → List A
  joined [] = []
  joined (r ∷ rs) = r ++ joined rs

  replicate-add : (n m : ℕ) (z : A) → replicate (n + m) z ≡ replicate n z ++ replicate m z
  replicate-add zero m z = ap (λ k. replicate k z) (let e : 0 + m ≡ m = omega arith in e)
  replicate-add (suc n) m z =
      ap (λ k. replicate k z) (let e : suc n + m ≡ suc (n + m) = omega arith in e)
      ∙ ap (◌∷◌ z) (replicate-add n m z)

  set-append_left :
      (xs ys : List A) (k : ℕ) (v : A) → k < length xs → set (xs ++ ys) k v ≡ set xs k v ++ ys
  set-append_left [] ys k v h = elim h [ ]
  set-append_left (x ∷ xs) ys zero v h = refl
  set-append_left (x ∷ xs) ys (suc k) v h = ap (◌∷◌ x) (set-append_left xs ys k v (omega arith))

  set-append_right :
      (xs ys : List A) (k : ℕ) (v : A) → set (xs ++ ys) (length xs + k) v ≡ xs ++ set ys k v
  set-append_right [] ys k v = ap (λ i. set ys i v) (let e : 0 + k ≡ k = omega arith in e)
  set-append_right (x ∷ xs) ys k v =
      ap (λ i. set (x ∷ xs ++ ys) i v)
        (let e : suc (length xs) + k ≡ suc (length xs + k) = omega arith in e)
      ∙ ap (◌∷◌ x) (set-append_right xs ys k v)

  mark_from :
      (z one : A) (n i : ℕ) (ks : List ℕ) (before : List A)
      → length before ≡ i * n
      → All (λ k. k < n) ks
      → mark one n i ks (before ++ replicate (length ks * n) z)
        ≡ ok (before ++ joined (map (unit_row z one n) ks))
  unfolding mark
  mark_from z one n i [] before e h =
      ap (λ m. ok (before ++ replicate m z)) (let e : 0 * n ≡ 0 = omega arith in e)
  mark_from z one n i (k ∷ ks) before e h =
      let more = replicate (length ks * n) z in
      let row = unit_row z one n k in
      let split : before ++ replicate (suc (length ks) * n) z ≡ before ++ (replicate n z ++ more) =
        ap (λ m. before ++ m)
          (ap (λ m. replicate m z) (suc-mul (length ks) n) ∙ replicate-add n (length ks * n) z) in
      let at : i * n + k ≡ length before + k = omega (arith, e) in
      let fits : ltb (length before + k) (length (before ++ (replicate n z ++ more))) ≡ true =
        fits_lem before n z more k h.0 in
      let written : set (before ++ (replicate n z ++ more)) (length before + k) one
          ≡ (before ++ row) ++ more =
        set-append_right before (replicate n z ++ more) k one
        ∙ ap (λ m. before ++ m)
            (set-append_left (replicate n z) more k one (omega (arith, h.0, length-replicate n z)))
        ∙ sym (append_assoc before row more) in
      rw (split, at, fits, written)
        (mark_from z one n (suc i) ks (before ++ row) (next before n k i e) h.1
          ∙ ap ok (append_assoc before row (joined (map (unit_row z one n) ks))))
    where
      fits_lem :
          (before : List A) (n : ℕ) (z : A) (more : List A) (k : ℕ)
          → k < n
          → ltb (length before + k) (length (before ++ (replicate n z ++ more))) ≡ true
      fits_lem before n z more k h = ground (
        arith,
        h,
        length-append before (replicate n z ++ more),
        length-append (replicate n z) more,
        length-replicate n z,
      )

      next :
          (before : List A) (n k i : ℕ)
          → length before ≡ i * n
          → length (before ++ unit_row z one n k) ≡ suc i * n
      next before n k i e = omega (
        arith,
        e,
        suc-mul i n,
        length-append before (unit_row z one n k),
        length-set (replicate n z) k one,
        length-replicate n z,
      )

  pub reshape-joined :
      (n : ℕ) (rows : List (List A))
      → All (λ r. length r ≡ n) rows
      → reshape (length rows) n (joined rows) ≡ rows
  unfolding reshape
  reshape-joined n [] h = refl
  reshape-joined n (r ∷ rows) h = rw (← h.0) (
      rw (take-append_self r (joined rows), drop-append_self r (joined rows))
        (ap (◌∷◌ r) (
          subst (λ m. reshape (length rows) m (joined rows) ≡ rows) (sym h.0)
            (reshape-joined n rows h.1))))

  -- Each row of the reshaped array has its one at the place of its index.
  pub mark-reshape :
      (z one : A) (n : ℕ) (ks : List ℕ)
      → 0 < length ks
      → All (λ k. k < n) ks
      → (flat : List A) × (mark_all one n ks (replicate (length ks * n) z) ≡ ok flat)
        × (reshape (length ks) n flat ≡ map (unit_row z one n) ks)
  unfolding mark_all
  mark-reshape z one n [] some_k h = absurd (omega arith)
  mark-reshape z one n (k ∷ more) some_k h =
      let ks = k ∷ more in
      let rows = map (unit_row z one n) ks in
      (
        joined rows,
        mark_from z one n 0 ks [] (let e : 0 ≡ 0 * n = omega arith in e) h,
        subst (λ m. reshape m n (joined rows) ≡ rows) (length-map (unit_row z one n) ks)
            (reshape-joined n rows (rows_length ks)),
      )
    where
      rows_length : (js : List ℕ) → All (λ r. length r ≡ n) (map (unit_row z one n) js)
      rows_length [] = tt
      rows_length (j ∷ js) =
          (length-set (replicate n z) j one ∙ length-replicate n z, rows_length js)
