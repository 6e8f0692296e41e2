-- ===== src/Wls/Jacobian.antt =====
-- The Jacobian of the residuals: one row for each measurement, one column for each unknown.
use sgidal_example.Prelude.{
  length, replicate, All, length-append, length-replicate, length-set, length-map, take, drop, ok,
  ℕ, suc, ◌+◌, ◌<◌, ◌≡◌, refl, sym, ap, ◌∙◌, subst, List, [], ◌∷◌, ◌++◌, map, arith,
}
use sgidal_example.Floats.{Floats, Complex}
use sgidal_example.Wls.Arrays.{
  Numpy, take_at, diags_array, entrywise, mat_vec, c_add, c_sub, c_mul, conjugate, unit_j,
}
use sgidal_example.Wls.Model.{
  beside, Problem, phasors, currents, h_pow1, h_pow2, calculate_jacobian,
}
use sgidal_example.Wls.Taken.{
  take_at-IsTaken, IsTaken-All, length-take-add, length-drop-add, length-zip_with,
}
use sgidal_example.Wls.Marked.{unit_row, mark-reshape}
use sgidal_example.Wls.Shape.{
  HasShape, IsPosed, map-HasShape, zip_with-HasShape, beside-HasShape, append-HasShape,
  diagonal_from-HasShape, scale_rows-HasShape, scale_columns-HasShape,
}

take-stacked :
    {A B : Type 0} (g : A → B) (a b c : List A) → take (length a) (map g ((a ++ b) ++ c)) ≡ map g a
take-stacked g [] b c = refl
take-stacked g (x ∷ a) b c = ap (◌∷◌ (g x)) (take-stacked g a b c)

module _ {A : Type 0} (z one : A) (n : ℕ) where
  -- The row of a voltage: no angle, and its own magnitude.
  abbrev pub voltage_row : ℕ → List A
  voltage_row k = replicate n z ++ unit_row z one n k

  beside-units :
      (ks : List ℕ)
      → beside (replicate (length ks) (replicate n z)) (map (unit_row z one n) ks)
        ≡ map voltage_row ks
  beside-units [] = refl
  beside-units (k ∷ ks) = ap (◌∷◌ (voltage_row k)) (beside-units ks)

  voltage_rows-HasShape : (ks : List ℕ) → HasShape (length ks) (n + n) (map voltage_row ks)
  voltage_rows-HasShape [] = (refl, tt)
  voltage_rows-HasShape (k ∷ ks) =
      let rest = voltage_rows-HasShape ks in
      (
        ap suc rest.0,
        (
          omega (
            arith,
            length-append (replicate n z) (unit_row z one n k),
            length-replicate n z,
            length-set (replicate n z) k one,
          ),
          rest.1,
        ),
      )

module _ {F : Floats} (np : Numpy F) where
  pub length-phasors :
      (n : ℕ) (ds vs : List F.Float) → length ds ≡ n → length vs ≡ n → length (phasors np ds vs) ≡ n
  unfolding phasors
  length-phasors n ds vs h k = length-zip_with _ vs ds (k ∙ sym h) ∙ h

  pub length-currents :
      (y : List (List (Complex F))) (vp : List (Complex F)) → length (currents np y vp) ≡ length y
  unfolding currents mat_vec
  length-currents y vp = length-map _ (map (map (conjugate F)) y) ∙ length-map (map (conjugate F)) y

  diags_array-HasShape :
      (n : ℕ) (ds : List (Complex F)) → length ds ≡ n → HasShape n n (diags_array F ds)
  unfolding diags_array
  diags_array-HasShape n ds h =
      subst (λ m. HasShape m m (diags_array F ds)) h (diagonal_from-HasShape F (length ds) 0 ds)

  module _ (n : ℕ) (y : List (List (Complex F))) (ds vs : List F.Float) (square : HasShape n n y)
      (many_ds : length ds ≡ n) (many_vs : length vs ≡ n) where
    h_pow1-HasShape : HasShape n n (h_pow1 np y ds vs)
    unfolding h_pow1 entrywise
    h_pow1-HasShape =
        let vp = phasors np ds vs in
        let many = length-phasors n ds vs many_ds many_vs in
        scale_rows-HasShape F n n (map (c_mul F (unit_j F)) vp) _
          (length-map (c_mul F (unit_j F)) vp ∙ many)
          (zip_with-HasShape (c_sub F) n n _ _
            (diags_array-HasShape n _ (length-currents y vp ∙ square.0))
            (scale_columns-HasShape F n n _ (map (conjugate F) vp)
              (length-map (conjugate F) vp ∙ many) (map-HasShape (conjugate F) n n y square)))

    h_pow2-HasShape : HasShape n n (h_pow2 np y ds vs)
    unfolding h_pow2 entrywise
    h_pow2-HasShape =
        let vp = phasors np ds vs in
        let many = length-phasors n ds vs many_ds many_vs in
        let counted = length-currents y vp ∙ square.0 in
        zip_with-HasShape (c_add F) n n _ _
          (scale_columns-HasShape F n n _ (map (λ d. np.cis (F.neg d)) ds)
            (length-map (λ d. np.cis (F.neg d)) ds ∙ many_ds)
            (scale_rows-HasShape F n n vp _ many (map-HasShape (conjugate F) n n y square)))
          (diags_array-HasShape n _ (
            length-zip_with (c_mul F) (map np.cis ds) (currents np y vp)
              (length-map np.cis ds ∙ many_ds ∙ sym counted)
            ∙ counted))

  -- The rows of the gradients that are taken.
  taken_rows :
      (n : ℕ) (part : Complex F → F.Float) (m1 m2 : List (List (Complex F))) (ks : List ℕ)
      → HasShape n n m1
      → HasShape n n m2
      → All (λ k. k < n) ks
      → (rows : List (List F.Float)) × (take_at (beside (map (map part) m1) (map (map part) m2)) ks
          ≡ ok rows)
        × HasShape (length ks) (n + n) rows
  taken_rows n part m1 m2 ks h1 h2 bound =
      let whole = beside (map (map part) m1) (map (map part) m2) in
      let shaped =
        beside-HasShape n n n (map (map part) m1) (map (map part) m2) (map-HasShape part n n m1 h1)
          (map-HasShape part n n m2 h2) in
      let (rows, t) =
        take_at-IsTaken whole ks (subst (λ m. All (λ k. k < m) ks) (sym shaped.0) bound) in
      (rows, t.taken, (t.as_many, IsTaken-All (λ row. length row ≡ n + n) whole ks rows t shaped.1))

  -- For a problem that fits together with one voltage at least, and a start of twice as many values
  -- as nodes: the Jacobian has one row for each measurement, voltages first, then real and reactive
  -- powers, and two columns for each node; the row of a voltage is -1 at the magnitude of its node
  -- and -0 elsewhere.
  pub calculate_jacobian-HasShape :
      (p : Problem F) (x0 : List F.Float)
      → IsPosed p
      → 0 < length p.known_v
      → length x0 ≡ p.num_node + p.num_node
      → (h : List (List F.Float)) × (calculate_jacobian np p x0 ≡ ok h)
        × HasShape
            (length p.known_v + length p.known_p + length p.known_q)
            (p.num_node + p.num_node)
            h
        × (take (length p.known_v) h
            ≡ map (λ k. map F.neg (voltage_row (F.from_ℕ 0) (F.from_ℕ 1) p.num_node k)) p.known_v)
  unfolding calculate_jacobian
  calculate_jacobian-HasShape p x0 posed some_v h =
      let n = p.num_node in
      let ds = take n x0 in
      let vs = drop n x0 in
      let many_ds = length-take-add n n x0 h in
      let many_vs = length-drop-add n n x0 h in
      let pow1 = h_pow1 np p.y ds vs in
      let pow2 = h_pow2 np p.y ds vs in
      let shape1 = h_pow1-HasShape n p.y ds vs posed.square many_ds many_vs in
      let shape2 = h_pow2-HasShape n p.y ds vs posed.square many_ds many_vs in
      let (flat, marked, units) =
        mark-reshape (F.from_ℕ 0) (F.from_ℕ 1) n p.known_v some_v posed.nodes_v in
      let (h2, e2, s2) = taken_rows n (λ c. c.0) pow1 pow2 p.known_p shape1 shape2 posed.nodes_p in
      let (h3, e3, s3) = taken_rows n (λ c. c.1) pow1 pow2 p.known_q shape1 shape2 posed.nodes_q in
      let rows = map (voltage_row (F.from_ℕ 0) (F.from_ℕ 1) n) p.known_v in
      let shaped = voltage_rows-HasShape (F.from_ℕ 0) (F.from_ℕ 1) n p.known_v in
      let stacked =
        append-HasShape _ _ (n + n) (rows ++ h2) h3 (append-HasShape _ _ (n + n) rows h2 shaped s2)
          s3 in
      let first : take (length p.known_v) (map (map F.neg) ((rows ++ h2) ++ h3))
          ≡ map (map F.neg) rows =
        subst (λ m. take m (map (map F.neg) ((rows ++ h2) ++ h3)) ≡ map (map F.neg) rows) shaped.0
          (take-stacked (map F.neg) rows h2 h3) in
      (
        map (map F.neg) ((rows ++ h2) ++ h3),
        rw (marked, units, beside-units (F.from_ℕ 0) (F.from_ℕ 1) n p.known_v, e2, e3) refl,
        map-HasShape F.neg _ (n + n) _ stacked,
        first ∙ map_map p.known_v,
      )
    where
      map_map :
          (ks : List ℕ)
          → map (map F.neg) (map (voltage_row (F.from_ℕ 0) (F.from_ℕ 1) p.num_node) ks)
            ≡ map (λ k. map F.neg (voltage_row (F.from_ℕ 0) (F.from_ℕ 1) p.num_node k)) ks
      map_map [] = refl
      map_map (k ∷ ks) =
          ap (◌∷◌ (map F.neg (voltage_row (F.from_ℕ 0) (F.from_ℕ 1) p.num_node k))) (map_map ks)
