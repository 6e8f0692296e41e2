-- ===== src/Opf/Tests.antt =====
-- The federate of the optimal power flow at two buses with one PV system.
use sgidal_example.Prelude.{replicate, All, ℕ, String, refl, true, false, List, [], ◌∷◌}
use sgidal_example.Samples.{whole}
use sgidal_example.Adapter.Measurements.{Power}
use sgidal_example.Lindistflow.{watt}
use sgidal_example.Lindistflow.Program.{Program, Answer, solved}
use sgidal_example.Opf.{Inputs, Round, updated, granted, max_time, Federate, run}
use sgidal_example.Opf.Targeted.{IsTargeted, names_of, run-IsTargeted}

abbrev power : Power whole
power = ("a.1", "PVSystem.pv1", 3)

abbrev inputs : Inputs whole
inputs = record {
  admittances = record { from_equipment = "s.1"; to_equipment = "a.1"; y = (1, 2) } ∷ [];
  base_voltages = ("s.1", 7000) ∷ ("a.1", 7000) ∷ [];
  slack_bus = "s.1" ∷ [];
  voltages = ("a.1", 6000) ∷ [];
  time = "noon";
  real = power ∷ [];
  imag = power ∷ [];
}

abbrev same_matrix : List (List (ℕ × ℕ)) → List (List (ℕ × ℕ))
same_matrix m = m

abbrev components : List (String × String) → List (List String)
components edges = ("s" ∷ "a" ∷ []) ∷ []

abbrev solver : Program whole → Answer whole
solver p = solved (replicate 40 5)

abbrev federate : Federate whole
federate = record { published = []; stopped = false }

abbrev rounds : List (Round whole)
rounds = updated inputs ∷ granted ∷ max_time ∷ []

abbrev ended : Federate whole
ended = (run same_matrix components solver watt false true rounds federate).1

run-IsTargeted_example : All (IsTargeted watt (names_of rounds)) ended.published
run-IsTargeted_example =
    run-IsTargeted same_matrix components solver watt false true rounds federate refl
