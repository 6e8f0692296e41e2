-- ===== src/Wls/Shape.antt =====
-- The shapes of the matrices, and of the Jacobian that they make.
use sgidal_example.Prelude.{
  length, replicate, All, length-append, length-replicate, length-set, length-map, zip_with, ℕ,
  zero, suc, ◌+◌, ◌<◌, ◌≡◌, refl, sym, ap, ◌∙◌, List, [], ◌∷◌, ◌++◌, map, arith,
}
use sgidal_example.Floats.{Floats, Complex}
use sgidal_example.Wls.Arrays.{diagonal_from, scale_rows, scale_columns, c_zero, c_mul}
use sgidal_example.Wls.Model.{beside, Problem}
use sgidal_example.Wls.Taken.{length-zip_with}

-- A matrix with this many rows and columns.
abbrev pub HasShape : {A : Type 0} → ℕ → ℕ → List (List A) → Type 0
HasShape r c m = (length m ≡ r) × All (λ row. length row ≡ c) m

-- A problem that fits together: the matrix is square, the indices are nodes, and there is one value
-- for each index.
pub record IsPosed {F : Floats} (p : Problem F) : Type 0 where
  pub square : HasShape p.num_node p.num_node p.y
  pub nodes_p : All (λ k. k < p.num_node) p.known_p
  pub nodes_q : All (λ k. k < p.num_node) p.known_q
  pub nodes_v : All (λ k. k < p.num_node) p.known_v
  pub measured : length p.z ≡ length p.known_v + length p.known_p + length p.known_q

All-zip_with :
    {A B C : Type 0} (P : B → Type 0) (Q : C → Type 0) (f : A → B → C)
    → ((a : A) (b : B) → P b → Q (f a b))
    → (xs : List A) (ys : List B) → All P ys
    → All Q (zip_with f xs ys)
All-zip_with P Q f k [] ys h = tt
All-zip_with P Q f k (x ∷ xs) [] h = tt
All-zip_with P Q f k (x ∷ xs) (y ∷ ys) h = (k x y h.0, All-zip_with P Q f k xs ys h.1)

module _ {A B : Type 0} where
  pub map-HasShape :
      (f : A → B) (r c : ℕ) (m : List (List A)) → HasShape r c m → HasShape r c (map (map f) m)
  map-HasShape f r c m h = (length-map (map f) m ∙ h.0, rows m h.1)
    where
      rows :
          (m : List (List A))
          → All (λ row. length row ≡ c) m
          → All (λ row. length row ≡ c) (map (map f) m)
      rows [] h = tt
      rows (row ∷ m) h = (length-map f row ∙ h.0, rows m h.1)

module _ {A : Type 0} where
  pub zip_with-HasShape :
      (f : A → A → A) (r c : ℕ) (m n : List (List A))
      → HasShape r c m
      → HasShape r c n
      → HasShape r c (zip_with (zip_with f) m n)
  zip_with-HasShape f r c m n h k =
      (length-zip_with (zip_with f) m n (h.0 ∙ sym k.0) ∙ k.0, rows m n h.1 k.1)
    where
      rows :
          (m n : List (List A))
          → All (λ row. length row ≡ c) m
          → All (λ row. length row ≡ c) n
          → All (λ row. length row ≡ c) (zip_with (zip_with f) m n)
      rows [] n h k = tt
      rows (x ∷ m) [] h k = tt
      rows (x ∷ m) (y ∷ n) h k = (length-zip_with f x y (h.0 ∙ sym k.0) ∙ k.0, rows m n h.1 k.1)

  pub beside-HasShape :
      (r c d : ℕ) (m n : List (List A))
      → HasShape r c m
      → HasShape r d n
      → HasShape r (c + d) (beside m n)
  beside-HasShape r c d m n h k = (length-zip_with _ m n (h.0 ∙ sym k.0) ∙ k.0, rows m n h.1 k.1)
    where
      rows :
          (m n : List (List A))
          → All (λ row. length row ≡ c) m
          → All (λ row. length row ≡ d) n
          → All (λ row. length row ≡ c + d) (beside m n)
      rows [] n h k = tt
      rows (x ∷ m) [] h k = tt
      rows (x ∷ m) (y ∷ n) h k = (omega (arith, length-append x y, h.0, k.0), rows m n h.1 k.1)

  pub append-HasShape :
      (r s c : ℕ) (m n : List (List A))
      → HasShape r c m
      → HasShape s c n
      → HasShape (r + s) c (m ++ n)
  append-HasShape r s c m n h k = (omega (arith, length-append m n, h.0, k.0), rows m h.1)
    where
      rows :
          (m : List (List A)) → All (λ row. length row ≡ c) m → All (λ row. length row ≡ c) (m ++ n)
      rows [] h = k.1
      rows (x ∷ m) h = (h.0, rows m h.1)

  pub replicate-HasShape : (r c : ℕ) (a : A) → HasShape r c (replicate r (replicate c a))
  replicate-HasShape r c a = (length-replicate r (replicate c a), rows r)
    where
      rows : (r : ℕ) → All (λ row. length row ≡ c) (replicate r (replicate c a))
      rows zero = tt
      rows (suc r) = (length-replicate c a, rows r)

module _ (F : Floats) where
  pub diagonal_from-HasShape :
      (n i : ℕ) (ds : List (Complex F)) → HasShape (length ds) n (diagonal_from F n i ds)
  unfolding diagonal_from
  diagonal_from-HasShape n i [] = (refl, tt)
  diagonal_from-HasShape n i (d ∷ ds) =
      let rest = diagonal_from-HasShape n (suc i) ds in
      (
        ap suc rest.0,
        (length-set (replicate n (c_zero F)) i d ∙ length-replicate n (c_zero F), rest.1),
      )

  pub scale_rows-HasShape :
      (r c : ℕ) (ds : List (Complex F)) (m : List (List (Complex F)))
      → length ds ≡ r
      → HasShape r c m
      → HasShape r c (scale_rows F ds m)
  unfolding scale_rows
  scale_rows-HasShape r c ds m e h = (
    length-zip_with _ ds m (e ∙ sym h.0) ∙ h.0,
    All-zip_with (λ row. length row ≡ c) (λ row. length row ≡ c) _
        (λ d row k. length-map (c_mul F d) row ∙ k) ds m h.1,
  )

  pub scale_columns-HasShape :
      (r c : ℕ) (m : List (List (Complex F))) (ds : List (Complex F))
      → length ds ≡ c
      → HasShape r c m
      → HasShape r c (scale_columns F m ds)
  unfolding scale_columns
  scale_columns-HasShape r c m ds e h =
      (length-map (λ row. zip_with (c_mul F) row ds) m ∙ h.0, rows m h.1)
    where
      rows :
          (m : List (List (Complex F)))
          → All (λ row. length row ≡ c) m
          → All (λ row. length row ≡ c) (map (λ row. zip_with (c_mul F) row ds) m)
      rows [] h = tt
      rows (row ∷ m) h = (length-zip_with (c_mul F) row ds (h.0 ∙ sym e) ∙ e, rows m h.1)
