-- ===== src/Wls/Posed.antt =====
-- The problem that `state_estimator` sets fits together.
use sgidal_example.Prelude.{
  ◌==◌, length, get_elem?, all, All, length-append, length-map, zip_with, mem, ok, ℕ, ◌+◌, ◌<◌,
  String, ◌≡◌, refl, sym, ◌∙◌, subst, true, some, List, [], ◌∷◌, ◌++◌, map, arith,
}
use sgidal_example.Floats.{Floats, Complex}
use sgidal_example.Indexing.{permutation, get_indices}
use sgidal_example.Indexing.Permutation.{
  permutation_total, permutation_sound, permutation-length, permutation-at, permutation-in_range,
}
use sgidal_example.Recorder.{Measurement}
use sgidal_example.Wls.Arrays.{Numpy, real}
use sgidal_example.Wls.Model.{Problem}
use sgidal_example.Wls.Estimator.{
  Topology, AlgorithmParameters, is_square, check_square, injected, measured, scaled_y, get_y,
  problem_of,
}
use sgidal_example.Wls.Taken.{IsTaken, take_at-IsTaken, length-zip_with, broadcast-even}
use sgidal_example.Wls.Shape.{
  HasShape, IsPosed, map-HasShape, scale_rows-HasShape, scale_columns-HasShape,
}

-- The places of names in a list.
pub record IsFound (ids names : List String) (ks : List ℕ) : Type 0 where
  pub found : get_indices names ids ≡ ok ks
  pub as_many : length ks ≡ length names
  pub in_range : All (λ k. k < length ids) ks
  pub named :
      (j : ℕ) (v : String)
      → get_elem? names j ≡ some v
      → (k : ℕ) × (get_elem? ks j ≡ some k) × (get_elem? ids k ≡ some v)

pub get_indices-IsFound :
    (ids names : List String)
    → All (λ v. mem v ids ≡ true) names
    → (ks : List ℕ) × IsFound ids names ks
unfolding get_indices permutation
get_indices-IsFound ids names h =
    let (ks, e) = permutation_total names ids h in
    let sound = permutation_sound names ids ks e in
    (
      ks,
      record {
        found = e;
        as_many = permutation-length names ids ks e;
        in_range = permutation-in_range names ids ks e;
        named = λ j v at. permutation-at ids names ks j v sound at;
      },
    )

module _ {F : Floats} where
  -- One value for each name, and every name is a node.
  abbrev pub IsWhole : Topology F → Measurement F → Type 0
  IsWhole topology m = (length m.values ≡ length m.ids) × All (λ v. mem v topology.ids ≡ true) m.ids

check_square-HasShape :
    {A : Type 0} (n : ℕ) (m : List (List A)) → HasShape n n m → check_square n m ≡ ok tt
unfolding check_square is_square
check_square-HasShape {A} n m h =
    let e : (length m == n) ≡ true = ground (arith, h.0) in rw (e, every m h.1) refl
  where
    every :
        (m : List (List A)) → All (λ row. length row ≡ n) m → all (λ row. length row == n) m ≡ true
    every [] k = refl
    every (row ∷ m) k =
        let e : (length row == n) ≡ true = ground (arith, k.0) in rw (e, every m k.1) refl

module _ {F : Floats} (np : Numpy F) (tol base_power : F.Float) where
  -- The parameters with a base power.
  abbrev pub with_base : AlgorithmParameters F
  with_base = record { tol = tol; base_power = some base_power }

  abbrev pub injection : List F.Float → List F.Float
  injection = map (λ v. F.over (F.neg v) base_power)

  -- What the problem is made of.
  pub record IsProblem (topology : Topology F) (p q v : Measurement F) (problem : Problem F)
      : Type 0 where
    pub set : problem_of np with_base topology p q v ≡ ok problem
    pub posed : IsPosed problem
    pub nodes : problem.num_node ≡ length topology.base_voltages
    pub found_p : IsFound topology.ids p.ids problem.known_p
    pub found_q : IsFound topology.ids q.ids problem.known_q
    pub found_v : IsFound topology.ids v.ids problem.known_v
    pub bases : List F.Float
    pub taken : IsTaken topology.base_voltages problem.known_v bases
    pub values :
        problem.z ≡ (zip_with F.over v.values bases ++ injection p.values) ++ injection q.values

  scaled_y-HasShape :
      (base : List F.Float) (y : List (List (Complex F)))
      → HasShape (length base) (length base) y
      → (m : List (List (Complex F))) × (scaled_y np with_base base y ≡ ok m)
        × HasShape (length base) (length base) m
  unfolding scaled_y
  scaled_y-HasShape base y h =
      let n = length base in
      let vs = map (real F) base in
      let many = length-map (real F) base in
      (
        _,
        rw (check_square-HasShape n y h) refl,
        map-HasShape (λ c. np.divide c (F.times base_power (F.from_ℕ 1000))) n n _
            (scale_columns-HasShape F n n _ vs many (scale_rows-HasShape F n n vs y many h)),
      )

  pub problem_of-IsProblem :
      (topology : Topology F) (y : List (List (Complex F))) (p q v : Measurement F)
      → length topology.ids ≡ length topology.base_voltages
      → get_y topology.admittance topology.ids ≡ ok y
      → HasShape (length topology.base_voltages) (length topology.base_voltages) y
      → IsWhole topology p
      → IsWhole topology q
      → IsWhole topology v
      → (problem : Problem F) × IsProblem topology p q v problem
  unfolding problem_of measured injected
  problem_of-IsProblem topology y p q v same read shape wp wq wv =
      let n = length topology.base_voltages in
      let (known_p, fp) = get_indices-IsFound topology.ids p.ids wp.1 in
      let (known_q, fq) = get_indices-IsFound topology.ids q.ids wq.1 in
      let (known_v, fv) = get_indices-IsFound topology.ids v.ids wv.1 in
      let in_nodes : (ks : List ℕ) → All (λ k. k < length topology.ids) ks → All (λ k. k < n) ks =
        λ (ks : List ℕ) h. subst (λ m. All (λ k. k < m) ks) same h in
      let (bases, t) =
        take_at-IsTaken topology.base_voltages known_v (in_nodes known_v fv.in_range) in
      let even : length v.values ≡ length bases = wv.0 ∙ sym fv.as_many ∙ sym t.as_many in
      let (m, scaled, square) = scaled_y-HasShape topology.base_voltages y shape in
      let z = (zip_with F.over v.values bases ++ injection p.values) ++ injection q.values in
      let counted : length z ≡ length known_v + length known_p + length known_q = omega (
        arith,
        length-append (zip_with F.over v.values bases ++ injection p.values) (injection q.values),
        length-append (zip_with F.over v.values bases) (injection p.values),
        length-zip_with F.over v.values bases even,
        length-map (λ v. F.over (F.neg v) base_power) p.values,
        length-map (λ v. F.over (F.neg v) base_power) q.values,
        t.as_many,
        fp.as_many,
        fq.as_many,
        wp.0,
        wq.0,
      ) in
      (
        record {
          z = z;
          num_node = n;
          known_p = known_p;
          known_q = known_q;
          known_v = known_v;
          y = m;
        },
        record {
          set =
              rw
                (
                  fp.found,
                  fq.found,
                  fv.found,
                  t.taken,
                  broadcast-even F.over v.values bases even,
                  read,
                  scaled,
                )
                refl;
          posed = record {
            square = square;
            nodes_p = in_nodes known_p fp.in_range;
            nodes_q = in_nodes known_q fq.in_range;
            nodes_v = in_nodes known_v fv.in_range;
            measured = counted;
          };
          nodes = refl;
          found_p = fp;
          found_q = fq;
          found_v = fv;
          bases = bases;
          taken = t;
          values = refl;
        },
      )
