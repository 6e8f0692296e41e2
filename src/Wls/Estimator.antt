-- ===== src/Wls/Estimator.antt =====
-- `get_y` and `state_estimator`: the problem that is solved, and what is made of the answer.
use sgidal_example.Prelude.{
  ltb, ◌==◌, if◌then◌else◌, length, get_elem?, set, replicate, all, take, drop, assert, or_raise,
  Result, assertion_error, value_error, index_error, type_error, ok, raise, ℕ, suc, String, Bool,
  true, false, ◌&&◌, Option, none, some, List, [], ◌∷◌, ◌++◌, map, str_eq, ◌>>=◌,
}
use sgidal_example.Floats.{Floats, Complex}
use sgidal_example.Indexing.{get_indices}
use sgidal_example.Recorder.{Measurement}
use sgidal_example.Wls.Arrays.{
  Numpy, take_at, broadcast, c_add, c_zero, real, scale_rows, scale_columns,
}
use sgidal_example.Wls.Model.{Problem, residual, calculate_jacobian}

-- `AdmittanceMatrix`, `AdmittanceSparse`, or another type.
pub data Admittance (F : Floats) : Type 0 where
  dense : List String → List (List (Complex F)) → Admittance F
  sparse : List String → List String → List (Complex F) → Admittance F
  other : Admittance F

-- What is read of `Topology`.
pub record Topology (F : Floats) : Type 0 where
  pub admittance : Admittance F
  pub ids : List String
  pub base_voltages : List F.Float
  pub base_angles : List F.Float
  pub slack_bus : List String

pub record AlgorithmParameters (F : Floats) : Type 0 where
  pub tol : F.Float
  pub base_power : Option F.Float

-- An initial value: a number, or an array.
pub data Initial (F : Floats) : Type 0 where
  scalar : F.Float → Initial F
  array : List F.Float → Initial F

-- With `None` for the index of the slack bus, numpy's `xs - xs[None]` has one row.
pub data Angles (F : Floats) : Type 0 where
  flat : List F.Float → Angles F
  nested : List F.Float → Angles F

unfoldable pub greatest : ℕ → List ℕ → ℕ
greatest m [] = m
greatest m (i ∷ is) = greatest (if ltb m i then i else m) is

-- `ids == own`
unfoldable pub same_names : List String → List String → Bool
same_names [] [] = true
same_names (x ∷ xs) (y ∷ ys) = str_eq x y && same_names xs ys
same_names _ _ = false

unfoldable pub is_square : {A : Type 0} → ℕ → List (List A) → Bool
is_square n m = (length m == n) && all (λ row. length row == n) m

-- The product with square matrices of this size takes no other.
unfoldable pub check_square : {A : Type 0} → ℕ → List (List A) → Result (Unit {0})
check_square n m = if is_square n m then ok tt else raise value_error

module _ (F : Floats) where
  -- One stored value of a sparse matrix, added to what its cell has.
  unfoldable pub add_cell : ℕ → ℕ → Complex F → List (List (Complex F)) → List (List (Complex F))
  add_cell r c v m = elim (get_elem? m r) [
    | none ↦ m
    | some row ↦ elim (get_elem? row c) [ none ↦ m | some w ↦ set m r (set row c (c_add F w v)) ]
  ]

  unfoldable pub add_cells :
      List (Complex F) → List ℕ → List ℕ → List (List (Complex F)) → List (List (Complex F))
  add_cells (v ∷ vs) (r ∷ rs) (c ∷ cs) m = add_cells vs rs cs (add_cell r c v m)
  add_cells _ _ _ m = m

  -- `coo_array((values, (rows, columns)))`: the shape is that of the greatest indices.
  unfoldable pub coo_array : List (Complex F) → List ℕ → List ℕ → Result (List (List (Complex F)))
  coo_array vs (r ∷ rs) (c ∷ cs) =
      if (length vs == suc (length rs)) && (length rs == length cs)
      then ok (
          add_cells vs (r ∷ rs) (c ∷ cs)
            (replicate (suc (greatest r rs)) (replicate (suc (greatest c cs)) (c_zero F))))
      else raise value_error
  coo_array vs rs cs = raise value_error

  -- `np.array(rows)` of rows of one length
  unfoldable pub matrix_to_numpy : List (List (Complex F)) → Result (List (List (Complex F)))
  matrix_to_numpy [] = ok []
  matrix_to_numpy (r ∷ rs) =
      if all (λ s. length s == length r) rs then ok (r ∷ rs) else raise value_error

  -- `-np.array(values) / base_power`
  unfoldable pub injected : Option F.Float → List F.Float → Result (List F.Float)
  injected (some b) values = ok (map (λ v. F.over (F.neg v) b) values)
  injected none [] = ok []
  injected none (v ∷ values) = raise type_error

module _ {F : Floats} where
  unfoldable pub get_y : Admittance F → List String → Result (List (List (Complex F)))
  get_y (dense own rows) ids = assert (same_names ids own) >>= λ _. matrix_to_numpy F rows
  get_y (sparse from_equipment to_equipment values) ids = get_indices from_equipment ids >>= λ rows.
      get_indices to_equipment ids >>= λ columns. coo_array F values rows columns
  get_y other ids = raise type_error

  -- `delta` and `Vabs`, with the assertion on the shape
  unfoldable pub initial_array : ℕ → Initial F → Result (List F.Float)
  initial_array n (scalar x) = ok (replicate n x)
  initial_array n (array xs) = if length xs == n then ok xs else raise assertion_error

  unfoldable pub minus_slack : Option ℕ → List F.Float → Result (Angles F)
  minus_slack none xs = ok (nested (map (λ x. F.minus x x) xs))
  minus_slack (some i) xs =
      or_raise (get_elem? xs i) index_error >>= λ x. ok (flat (map (λ y. F.minus y x) xs))

-- `scipy.optimize.least_squares` is scipy's: a parameter. It is given the residuals, the Jacobian,
-- the tolerance and the start, and answers with `x` or raises.
abbrev pub LeastSquares : Floats → Type 0
LeastSquares F =
    (List F.Float → Result (List F.Float))
    → (List F.Float → Result (List (List F.Float)))
    → F.Float
    → List F.Float
    → Result (List F.Float)

module _ {F : Floats} (np : Numpy F) where
  -- The measured values, in the order of the residuals.
  unfoldable pub measured :
      AlgorithmParameters F
      → List F.Float
      → List ℕ
      → Measurement F
      → Measurement F
      → Measurement F
      → Result (List F.Float)
  measured parameters base_voltages known_v p q v = take_at base_voltages known_v >>= λ bases.
      broadcast F.over v.values bases >>= λ zv. injected F parameters.base_power p.values >>= λ zp.
      injected F parameters.base_power q.values >>= λ zq. ok (zv ++ zp ++ zq)

  -- `diags_array(base) @ Y @ diags_array(base) / (base_power * 1000)`
  unfoldable pub scaled_y :
      AlgorithmParameters F
      → List F.Float
      → List (List (Complex F))
      → Result (List (List (Complex F)))
  scaled_y parameters base_voltages y = check_square (length base_voltages) y >>= λ _.
      or_raise parameters.base_power type_error >>= λ base_power.
      let base = map (real F) base_voltages in
      ok (
        map (map (λ c. np.divide c (F.times base_power (F.from_ℕ 1000))))
          (scale_columns F (scale_rows F base y) base))

  -- The arguments of `least_squares`.
  unfoldable pub problem_of :
      AlgorithmParameters F
      → Topology F
      → Measurement F
      → Measurement F
      → Measurement F
      → Result (Problem F)
  problem_of parameters topology p q v = get_indices p.ids topology.ids >>= λ known_p.
      get_indices q.ids topology.ids >>= λ known_q. get_indices v.ids topology.ids >>= λ known_v.
      measured parameters topology.base_voltages known_v p q v >>= λ z.
      get_y topology.admittance topology.ids >>= λ admittance.
      scaled_y parameters topology.base_voltages admittance >>= λ y. ok (record {
        z = z;
        num_node = length topology.base_voltages;
        known_p = known_p;
        known_q = known_q;
        known_v = known_v;
        y = y;
      })

  unfoldable pub state_estimator :
      LeastSquares F
      → AlgorithmParameters F
      → Topology F
      → Measurement F
      → Measurement F
      → Measurement F
      → Initial F
      → Initial F
      → Option ℕ
      → Result (List F.Float × Angles F)
  state_estimator least_squares parameters topology p q v initial_ang initial_v slack_index =
      let n = length topology.base_voltages in
      problem_of parameters topology p q v >>= λ problem. initial_array n initial_ang >>= λ delta.
      initial_array n initial_v >>= λ vabs.
      least_squares (residual np problem) (calculate_jacobian np problem) parameters.tol
        (delta ++ vabs)
      >>= λ solution. minus_slack slack_index (take n solution) >>= λ angles.
          broadcast F.times (drop n solution) topology.base_voltages >>= λ magnitudes.
          ok (magnitudes, angles)
