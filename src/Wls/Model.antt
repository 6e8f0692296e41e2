-- ===== src/Wls/Model.antt =====
-- `estimated_pqv`, `calculate_jacobian` and `residual`: what the least squares minimise.
use sgidal_example.Prelude.{
  ltb, if◌then◌else◌, length, set, replicate, take, drop, zip_with, Result, index_error, ok, raise,
  ℕ, zero, suc, ◌+◌, ◌*◌, List, [], ◌∷◌, ◌++◌, map, ◌>>=◌,
}
use sgidal_example.Floats.{Floats, Complex}
use sgidal_example.Wls.Arrays.{
  Numpy, take_at, broadcast, c_add, c_sub, c_mul, conjugate, real, unit_j, diags_array, scale_rows,
  scale_columns, entrywise, mat_vec,
}

-- `H12[np.arange(len(ks)) * n + ks] = one` for some `ks`, from row `i` on.
unfoldable pub mark : {A : Type 0} → A → ℕ → ℕ → List ℕ → List A → Result (List A)
mark one n i [] flat = ok flat
mark one n i (k ∷ ks) flat =
    let rest = mark one n (suc i) ks (set flat (i * n + k) one) in
    if ltb (i * n + k) (length flat) then rest else raise index_error

-- The whole assignment. Where `ks` is empty, the sum of the indices is an array of floats, which
-- numpy does not index with.
unfoldable pub mark_all : {A : Type 0} → A → ℕ → List ℕ → List A → Result (List A)
mark_all one n [] flat = raise index_error
mark_all one n (k ∷ ks) flat = mark one n 0 (k ∷ ks) flat

-- `flat.reshape(rows, n)` of an array of `rows * n` values
unfoldable pub reshape : {A : Type 0} → ℕ → ℕ → List A → List (List A)
reshape zero n flat = []
reshape (suc rows) n flat = take n flat ∷ reshape rows n (drop n flat)

-- `np.concatenate((m, n), axis=1)` of matrices with as many rows
abbrev pub beside : {A : Type 0} → List (List A) → List (List A) → List (List A)
beside m n = zip_with (λ r s. r ++ s) m n

-- The arguments that `least_squares` passes on: `z, num_node, knownP, knownQ, knownV, Y`.
pub record Problem (F : Floats) : Type 0 where
  pub z : List F.Float
  pub num_node : ℕ
  pub known_p : List ℕ
  pub known_q : List ℕ
  pub known_v : List ℕ
  pub y : List (List (Complex F))

module _ {F : Floats} (np : Numpy F) where
  -- `VabsK * np.exp(1j * deltaK)`
  unfoldable pub phasors : List F.Float → List F.Float → List (Complex F)
  phasors delta_k vabs_k = zip_with (λ v d. c_mul F (real F v) (np.cis d)) vabs_k delta_k

  -- `Y.conjugate() @ Vp.conjugate()`
  unfoldable pub currents : List (List (Complex F)) → List (Complex F) → List (Complex F)
  currents y vp = mat_vec F np (map (map (conjugate F)) y) (map (conjugate F) vp)

  -- `S`
  unfoldable pub powers : List (List (Complex F)) → List F.Float → List F.Float → List (Complex F)
  powers y delta_k vabs_k = let vp = phasors delta_k vabs_k in zip_with (c_mul F) vp (currents y vp)

  unfoldable pub estimated_pqv :
      List ℕ
      → List ℕ
      → List ℕ
      → List (List (Complex F))
      → List F.Float
      → List F.Float
      → Result (List F.Float)
  estimated_pqv known_p known_q known_v y delta_k vabs_k = take_at vabs_k known_v >>= λ h1.
      let s = powers y delta_k vabs_k in
      take_at (map (λ c. c.0) s) known_p >>= λ h2.
      take_at (map (λ c. c.1) s) known_q >>= λ h3. ok (h1 ++ h2 ++ h3)

  unfoldable pub residual : Problem F → List F.Float → Result (List F.Float)
  residual p x0 =
      estimated_pqv p.known_p p.known_q p.known_v p.y (take p.num_node x0) (drop p.num_node x0)
      >>= λ h. broadcast F.minus p.z h

  -- The gradient of the powers with respect to the magnitudes.
  unfoldable pub h_pow2 :
      List (List (Complex F)) → List F.Float → List F.Float → List (List (Complex F))
  h_pow2 y delta_k vabs_k =
      let vp = phasors delta_k vabs_k in
      entrywise F (c_add F)
        (scale_columns F (scale_rows F vp (map (map (conjugate F)) y))
          (map (λ d. np.cis (F.neg d)) delta_k))
        (diags_array F (zip_with (c_mul F) (map np.cis delta_k) (currents y vp)))

  -- The gradient of the powers with respect to the angles.
  unfoldable pub h_pow1 :
      List (List (Complex F)) → List F.Float → List F.Float → List (List (Complex F))
  h_pow1 y delta_k vabs_k =
      let vp = phasors delta_k vabs_k in
      scale_rows F (map (c_mul F (unit_j F)) vp) (
        entrywise F (c_sub F) (diags_array F (currents y vp))
          (scale_columns F (map (map (conjugate F)) y) (map (conjugate F) vp)))

  unfoldable pub calculate_jacobian : Problem F → List F.Float → Result (List (List F.Float))
  calculate_jacobian p x0 =
      let n = p.num_node in
      let delta_k = take n x0 in
      let vabs_k = drop n x0 in
      let num_known_v = length p.known_v in
      let h11 = replicate num_known_v (replicate n (F.from_ℕ 0)) in
      mark_all (F.from_ℕ 1) n p.known_v (replicate (num_known_v * n) (F.from_ℕ 0)) >>= λ h12.
      let h1 = beside h11 (reshape num_known_v n h12) in
      let pow1 = h_pow1 p.y delta_k vabs_k in
      let pow2 = h_pow2 p.y delta_k vabs_k in
      take_at (beside (map (map (λ c. c.0)) pow1) (map (map (λ c. c.0)) pow2)) p.known_p >>= λ h2.
      take_at (beside (map (map (λ c. c.1)) pow1) (map (map (λ c. c.1)) pow2)) p.known_q >>= λ h3.
      ok (map (map F.neg) (h1 ++ h2 ++ h3))
