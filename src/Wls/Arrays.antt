-- ===== src/Wls/Arrays.antt =====
-- What the state estimator calls of numpy and scipy on arrays: vectors are lists, matrices are the
-- lists of their rows, a sparse matrix too. The sums of products, the exponential and the mean are
-- numpy's: parameters.
use sgidal_example.Prelude.{
  ◌==◌, if◌then◌else◌, length, get_elem?, set, replicate, zip_with, or_raise, map_result, Result,
  value_error, index_error, ok, raise, ℕ, suc, List, [], ◌∷◌, map,
}
use sgidal_example.Floats.{Floats, Complex}

-- `cis d` is `np.exp(1j * d)`; `sum` adds the products of a row and a column; `mean` is `np.mean`;
-- `divide` a division of complex numbers by a float.
pub record Numpy (F : Floats) : Type 0 where
  pub cis : F.Float → Complex F
  pub sum : List (Complex F) → Complex F
  pub mean : List F.Float → F.Float
  pub divide : Complex F → F.Float → Complex F

-- `xs[ks]` for a list of indices
unfoldable pub take_at {ℓ} : {A : Type ℓ} → List A → List ℕ → Result (List A)
take_at xs ks = map_result (λ k. or_raise (get_elem? xs k) index_error) ks

-- An operation on two vectors: numpy repeats the one of length 1, and refuses other lengths.
broadcast_one : {A B C : Type 0} → (A → B → C) → List A → List B → Result (List C)
broadcast_one f (x ∷ []) ys = ok (map (f x) ys)
broadcast_one f xs (y ∷ []) = ok (map (λ x. f x y) xs)
broadcast_one f xs ys = raise value_error

unfoldable pub broadcast : {A B C : Type 0} → (A → B → C) → List A → List B → Result (List C)
unfolding broadcast_one
broadcast f xs ys = if length xs == length ys then ok (zip_with f xs ys) else broadcast_one f xs ys

module _ (F : Floats) where
  abbrev pub c_zero : Complex F
  c_zero = (F.from_ℕ 0, F.from_ℕ 0)

  -- A float in a product with complex numbers.
  abbrev pub real : F.Float → Complex F
  real x = (x, F.from_ℕ 0)

  -- `1j`
  abbrev pub unit_j : Complex F
  unit_j = (F.from_ℕ 0, F.from_ℕ 1)

  unfoldable pub c_add : Complex F → Complex F → Complex F
  c_add a b = (F.plus a.0 b.0, F.plus a.1 b.1)

  unfoldable pub c_sub : Complex F → Complex F → Complex F
  c_sub a b = (F.minus a.0 b.0, F.minus a.1 b.1)

  unfoldable pub c_mul : Complex F → Complex F → Complex F
  c_mul a b =
      (F.minus (F.times a.0 b.0) (F.times a.1 b.1), F.plus (F.times a.0 b.1) (F.times a.1 b.0))

  unfoldable pub conjugate : Complex F → Complex F
  conjugate a = (a.0, F.neg a.1)

  -- `diags_array(ds)`, as rows of which the first has its entry at place `i`.
  unfoldable pub diagonal_from : ℕ → ℕ → List (Complex F) → List (List (Complex F))
  diagonal_from n i [] = []
  diagonal_from n i (d ∷ ds) = set (replicate n c_zero) i d ∷ diagonal_from n (suc i) ds

  unfoldable pub diags_array : List (Complex F) → List (List (Complex F))
  diags_array ds = diagonal_from (length ds) 0 ds

  -- `diags_array(ds) @ m` and `m @ diags_array(ds)`
  unfoldable pub scale_rows : List (Complex F) → List (List (Complex F)) → List (List (Complex F))
  scale_rows ds m = zip_with (λ d row. map (c_mul d) row) ds m

  unfoldable pub scale_columns :
      List (List (Complex F)) → List (Complex F) → List (List (Complex F))
  scale_columns m ds = map (λ row. zip_with c_mul row ds) m

  -- `m + n` and `m - n`
  unfoldable pub entrywise :
      (Complex F → Complex F → Complex F)
      → List (List (Complex F))
      → List (List (Complex F))
      → List (List (Complex F))
  entrywise f m n = zip_with (zip_with f) m n

  -- `m @ v`
  unfoldable pub mat_vec : Numpy F → List (List (Complex F)) → List (Complex F) → List (Complex F)
  mat_vec np m v = map (λ row. np.sum (zip_with c_mul row v)) m
