-- ===== src/Wls/Estimated.antt =====
-- What `state_estimator` returns where the solver answers.
use sgidal_example.Prelude.{
  ◌==◌, length, get_elem?, replicate, length-append, length-replicate, get_elem?-lt, length-map,
  take, drop, zip_with, Result, ok, ℕ, ◌+◌, ◌<◌, ◌≡◌, refl, ◌∙◌, true, some, List, ◌++◌, map, arith,
  sym, subst,
}
use sgidal_example.Floats.{Floats, Complex}
use sgidal_example.Recorder.{Measurement}
use sgidal_example.Wls.Arrays.{Numpy}
use sgidal_example.Wls.Model.{Problem, residual, calculate_jacobian}
use sgidal_example.Wls.Estimator.{
  Topology, LeastSquares, scalar, array, flat, get_y, initial_array, minus_slack, state_estimator,
}
use sgidal_example.Wls.Taken.{
  length-zip_with, broadcast-even, length-take-add, length-drop-add, get_elem?-map,
}
use sgidal_example.Wls.Shape.{HasShape, IsPosed}
use sgidal_example.Wls.Aligned.{residual-IsEstimate}
use sgidal_example.Wls.Jacobian.{calculate_jacobian-HasShape}
use sgidal_example.Wls.Posed.{IsWhole, with_base, problem_of-IsProblem}

module _ (F : Floats) where
  -- The solver answers with an array of the size of the start where, at every point of that size, the
  -- residuals are returned, one for each measurement, and so is their Jacobian.
  abbrev pub AnswersInSize : LeastSquares F → Type 0
  AnswersInSize least_squares =
      (m : ℕ) (f : List F.Float → Result (List F.Float))
      (g : List F.Float → Result (List (List F.Float))) (tol : F.Float) (x : List F.Float)
      → ((y : List F.Float)
          → length y ≡ length x
          → (r : List F.Float) × (f y ≡ ok r) × (length r ≡ m))
      → ((y : List F.Float)
          → length y ≡ length x
          → (j : List (List F.Float)) × (g y ≡ ok j) × HasShape m (length x) j)
      → (y : List F.Float) × (least_squares f g tol x ≡ ok y) × (length y ≡ length x)

  -- One magnitude and one angle for each node, with the angle of the slack bus taken off itself.
  pub record IsReferenced (n slack : ℕ) (magnitudes angles : List F.Float) : Type 0 where
    pub many_magnitudes : length magnitudes ≡ n
    pub many_angles : length angles ≡ n
    pub own : F.Float
    pub reference : get_elem? angles slack ≡ some (F.minus own own)

module _ {F : Floats} where
  -- A base voltage and an angle for each node, and a square admittance matrix.
  pub record IsReady (topology : Topology F) : Type 0 where
    pub size : length topology.ids ≡ length topology.base_voltages
    pub angles : length topology.base_angles ≡ length topology.base_voltages
    pub y : List (List (Complex F))
    pub read : get_y topology.admittance topology.ids ≡ ok y
    pub square : HasShape (length topology.base_voltages) (length topology.base_voltages) y

-- How many measurements there are.
abbrev measurements : {F : Floats} → Problem F → ℕ
measurements p = length p.known_v + length p.known_p + length p.known_q

module _ {F : Floats} (np : Numpy F) (p : Problem F) (posed : IsPosed p) (x y : List F.Float)
    (start : length x ≡ p.num_node + p.num_node) (same : length y ≡ length x) where
  residual-total : (r : List F.Float) × (residual np p y ≡ ok r) × (length r ≡ measurements p)
  residual-total =
      let (h1, h2, h3, estimate) = residual-IsEstimate np p y posed (same ∙ start) in
      let hs = (h1 ++ h2) ++ h3 in
      (
        zip_with F.minus p.z hs,
        estimate.differences,
        length-zip_with F.minus p.z hs estimate.as_many ∙ sym estimate.as_many ∙ posed.measured,
      )

  jacobian-total :
      0 < length p.known_v
      → (j : List (List F.Float)) × (calculate_jacobian np p y ≡ ok j)
        × HasShape (measurements p) (length x) j
  jacobian-total some_v =
      let (j, run, shape, _) = calculate_jacobian-HasShape np p y posed some_v (same ∙ start) in
      (j, run, subst (λ n. HasShape (measurements p) n j) (sym start) shape)

module _ {F : Floats} (np : Numpy F) (tol base_power : F.Float) (least_squares : LeastSquares F)
    (answers : AnswersInSize F least_squares) where
  pub state_estimator-IsReferenced :
      (topology : Topology F) (p q v : Measurement F) (ang : List F.Float) (mag : F.Float)
      (slack : ℕ)
      → IsReady topology
      → IsWhole topology p
      → IsWhole topology q
      → IsWhole topology v
      → 0 < length v.ids
      → length ang ≡ length topology.base_voltages
      → slack < length topology.base_voltages
      → (magnitudes angles : List F.Float) × (state_estimator np least_squares
            (with_base np tol base_power)
            topology
            p
            q
            v
            (array ang)
            (scalar mag)
            (some slack)
          ≡ ok (magnitudes, flat angles))
        × IsReferenced F (length topology.base_voltages) slack magnitudes angles
  unfolding state_estimator initial_array minus_slack
  state_estimator-IsReferenced topology p q v ang mag slack ready wp wq wv some_v size inside =
      let n = length topology.base_voltages in
      let (problem, made) =
        problem_of-IsProblem np tol base_power topology ready.y p q v ready.size ready.read
          ready.square wp wq wv in
      let start = ang ++ replicate n mag in
      let twice : length start ≡ n + n =
        omega (arith, length-append ang (replicate n mag), size, length-replicate n mag) in
      let fitting : length start ≡ problem.num_node + problem.num_node =
        omega (arith, twice, made.nodes) in
      let voltages : 0 < length problem.known_v = omega (arith, some_v, (made.found_v).as_many) in
      let (x, solved, as_long) =
        answers (measurements problem) (residual np problem) (calculate_jacobian np problem) tol
          start (λ y e. residual-total np problem made.posed start y fitting e)
          (λ y e. jacobian-total np problem made.posed start y fitting e voltages) in
      let doubled : length x ≡ n + n = as_long ∙ twice in
      let many = length-take-add n n x doubled in
      let left = length-drop-add n n x doubled in
      let (a, at) = get_elem?-lt (take n x) slack (omega (arith, many, inside)) in
      let fits : (length ang == n) ≡ true = ground (arith, size) in
      (
        zip_with F.times (drop n x) topology.base_voltages,
        map (λ y. F.minus y a) (take n x),
        rw
            (
              made.set,
              fits,
              solved,
              at,
              broadcast-even F.times (drop n x) topology.base_voltages left,
            )
            refl,
        record {
          many_magnitudes = length-zip_with F.times (drop n x) topology.base_voltages left;
          many_angles = length-map (λ y. F.minus y a) (take n x) ∙ many;
          own = a;
          reference = get_elem?-map (λ y. F.minus y a) (take n x) slack a at;
        },
      )
