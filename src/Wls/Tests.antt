-- ===== src/Wls/Tests.antt =====
-- The state estimator on two nodes.
use sgidal_example.Prelude.{
  get_elem?, take, drop, ok, ℕ, String, ◌≡◌, refl, true, false, none, some, List, [], ◌∷◌, map,
  arith,
}
use sgidal_example.Samples.{whole}
use sgidal_example.Floats.{Complex}
use sgidal_example.Recorder.{Measurement}
use sgidal_example.Wls.Arrays.{Numpy, c_add}
use sgidal_example.Wls.Model.{Problem, residual, calculate_jacobian, powers}
use sgidal_example.Wls.Estimator.{
  Topology, dense, LeastSquares, same_names, get_y, matrix_to_numpy, problem_of,
}
use sgidal_example.Wls.Federate.{
  Inputs, updated, granted, max_time, Publication, Estimator, check_admittance, run,
}
use sgidal_example.Wls.Shape.{HasShape}
use sgidal_example.Wls.Jacobian.{voltage_row, calculate_jacobian-HasShape}
use sgidal_example.Wls.Posed.{with_base}
use sgidal_example.Wls.Residuals.{real_power, difference, residual-difference}
use sgidal_example.Wls.Estimated.{IsReady}
use sgidal_example.Wls.Handled.{ArePublished}
use sgidal_example.Wls.Published.{run_ends}

total : List (Complex whole) → Complex whole
total [] = (0, 0)
total (c ∷ cs) = c_add whole c (total cs)

abbrev numpy : Numpy whole
numpy = record { cis = λ d. (1, d); sum = total; mean = λ xs. 1; divide = λ c k. c }

abbrev rows : List (List (Complex whole))
rows = ((2, 1) ∷ (1, 0) ∷ []) ∷ ((1, 0) ∷ (2, 1) ∷ []) ∷ []

abbrev topology : Topology whole
topology = record {
  admittance = dense ("A.1" ∷ "B.1" ∷ []) rows;
  ids = "A.1" ∷ "B.1" ∷ [];
  base_voltages = 10 ∷ 20 ∷ [];
  base_angles = 0 ∷ 1 ∷ [];
  slack_bus = "B.1" ∷ [];
}

abbrev measured : List String → List ℕ → Measurement whole
measured ids values = record { ids = ids; values = values; time = "noon" }

abbrev inputs : Inputs whole
inputs = record {
  voltages = measured ("B.1" ∷ []) (21 ∷ []);
  power_p = measured ("A.1" ∷ "B.1" ∷ []) (5 ∷ 6 ∷ []);
  power_q = measured ("A.1" ∷ []) (7 ∷ []);
}

-- A solver that answers with its start.
abbrev keep : LeastSquares whole
keep f g tol x = ok x

abbrev problem : Problem whole
problem = record {
  z = 1 ∷ 2 ∷ 3 ∷ [];
  num_node = 2;
  known_p = 0 ∷ [];
  known_q = 1 ∷ [];
  known_v = 1 ∷ [];
  y = rows;
}

square : HasShape 2 2 rows
square = (refl, (refl, (refl, tt)))

read : get_y topology.admittance topology.ids ≡ ok rows
unfolding get_y same_names matrix_to_numpy
read = refl

ready : IsReady topology
ready = record { size = refl; angles = refl; y = rows; read = read; square = square }

checked : check_admittance topology.admittance ≡ ok tt
unfolding check_admittance
checked = refl

calculate_jacobian-HasShape_example :
    (h : List (List ℕ)) × (calculate_jacobian numpy problem (0 ∷ 1 ∷ 1 ∷ 1 ∷ []) ≡ ok h)
    × HasShape 3 4 h
    × (take 1 h ≡ map (λ k. map whole.neg (voltage_row 0 1 2 k)) (1 ∷ []))
calculate_jacobian-HasShape_example =
    calculate_jacobian-HasShape numpy problem (0 ∷ 1 ∷ 1 ∷ 1 ∷ [])
      (record {
        square = square;
        nodes_p = (omega arith, tt);
        nodes_q = (omega arith, tt);
        nodes_v = (omega arith, tt);
        measured = refl;
      })
      (omega arith) refl

residual-difference_example :
    (problem : Problem whole) × (r : List ℕ) × (k : ℕ) × (a b m : ℕ) × (s : Complex whole)
    × (problem_of numpy
          (with_base numpy 1 100)
          topology
          inputs.power_p
          inputs.power_q
          inputs.voltages
        ≡ ok problem)
    × (residual numpy problem (0 ∷ 1 ∷ 1 ∷ 1 ∷ []) ≡ ok r)
    × (get_elem? topology.ids k ≡ some "B.1")
    × (get_elem? (inputs.power_p).values 1 ≡ some a)
    × (get_elem? topology.base_voltages k ≡ some b)
    × (get_elem? (drop problem.num_node (0 ∷ 1 ∷ 1 ∷ 1 ∷ [])) k ≡ some m)
    × (get_elem?
          (powers numpy problem.y
            (take problem.num_node (0 ∷ 1 ∷ 1 ∷ 1 ∷ []))
            (drop problem.num_node (0 ∷ 1 ∷ 1 ∷ 1 ∷ [])))
          k
        ≡ some s)
    × (get_elem? r 2 ≡ some (difference whole real_power 100 a b m s))
residual-difference_example =
    residual-difference numpy 1 100 topology rows inputs.power_p inputs.power_q inputs.voltages
      (0 ∷ 1 ∷ 1 ∷ 1 ∷ []) refl read square (refl, (refl, (refl, tt))) (refl, (refl, tt))
      (refl, (refl, tt)) refl real_power 1 "B.1" refl

run_ends_example :
    (k : ℕ) × (end : Estimator whole) × (qs : List (Publication whole)) × (run numpy keep
        (with_base numpy 1 100)
        topology
        true
        (updated inputs ∷ granted ∷ max_time ∷ [])
        (record { initial_ang = none; initial_v = none; published = []; disconnected = false })
      ≡ (ok tt, end))
    × (get_elem? topology.ids k ≡ some "B.1")
    × (end.disconnected ≡ true)
    × (end.published ≡ qs)
    × ArePublished topology k (inputs ∷ []) qs
run_ends_example =
    run_ends numpy 1 100 keep (λ m f g tol x total_f total_g. (x, refl, refl)) topology "B.1" []
      (updated inputs ∷ granted ∷ []) []
      (record { initial_ang = none; initial_v = none; published = []; disconnected = false }) ready
      checked refl refl
      (((refl, (refl, tt)), (refl, (refl, (refl, tt))), (refl, (refl, tt)), omega arith), (tt, tt))
