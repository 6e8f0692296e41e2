-- ===== src/Lindistflow/Tests.antt =====
-- The optimisation's theorems at a line of two buses.
use sgidal_example.Prelude.{
  ltb, get_elem?, replicate, Dict, pos, unbound_local_error, ok, raise, ℕ, ◌≤◌, String, ◌≡◌, refl,
  ◌⊎◌, false, none, some, List, [], ◌∷◌, arith,
}
use sgidal_example.Samples.{whole}
use sgidal_example.Area.{AreaBus, AreaBranch}
use sgidal_example.Lindistflow.{ControlType, watt, watt_var, ignore_phase}
use sgidal_example.Lindistflow.Build.{
  Build, sizes_of, cell_at, rhs_at, count_branches, count_buses, state_variable_number,
}
use sgidal_example.Lindistflow.Balance.{power_balance, is_primary}
use sgidal_example.Lindistflow.Drop.{Triangle, triangle, z_at}
use sgidal_example.Lindistflow.Solution.{control_start}
use sgidal_example.Lindistflow.Program.{Program, Answer, solved, Opf, program, optimal_power_flow}
use sgidal_example.Lindistflow.Conserved.{flow_coefficient, power_balance-flow_coefficient}
use sgidal_example.Lindistflow.Greatest.{IsOrdered, ignore_phase-greatest}
use sgidal_example.Lindistflow.Answered.{IsAnswered}
use sgidal_example.Lindistflow.Optimal.{optimal_power_flow-IsAnswered, optimal_power_flow-watt_var}
use sgidal_example.Lindistflow.Bounds.{limit_count}
use sgidal_example.Lindistflow.Bounds.Control.{limits_of}
use sgidal_example.Lindistflow.Bounds.Assembly.{IsPrimaryNetwork, equation_count, program-fits}

abbrev bus_at : ℕ → AreaBus whole
bus_at idx = record {
  idx = idx;
  phases = "1" ∷ [];
  kv = 4;
  s_rated = 0;
  pv = (7, 8) ∷ (9, 10) ∷ (11, 12) ∷ [];
  pq = (1, 2) ∷ (3, 4) ∷ (5, 6) ∷ [];
}

abbrev buses : Dict (AreaBus whole)
buses = ("s", bus_at 0) ∷ ("a", bus_at 1) ∷ []

abbrev matrix : List (List (ℕ × ℕ))
matrix =
    ((1, 2) ∷ (3, 4) ∷ (5, 6) ∷ [])
    ∷ ((1, 2) ∷ (3, 4) ∷ (5, 6) ∷ [])
    ∷ ((1, 2) ∷ (3, 4) ∷ (5, 6) ∷ [])
    ∷ []

abbrev line : AreaBranch whole
line = record {
  idx = 0;
  kind = "LINE";
  from = 0;
  to = 1;
  fr_bus = "s";
  to_bus = "a";
  phases = "1" ∷ [];
  zprim = some matrix;
  impedance = none;
}

abbrev branches : Dict (AreaBranch whole)
branches = ("s_a", line) ∷ []

abbrev coefficients : Triangle whole
coefficients = record {
  z00 = (1, 2);
  z01 = (3, 4);
  z02 = (5, 6);
  z11 = (3, 4);
  z12 = (5, 6);
  z22 = (5, 6);
}

network : IsPrimaryNetwork {F = whole} branches buses
unfolding sizes_of count_branches count_buses is_primary triangle z_at
network = record {
  buses = ((omega arith, refl, refl, refl, refl), ((omega arith, refl, refl, refl, refl), tt));
  branches = ((refl, omega arith, omega arith, (matrix, coefficients, refl, refl)), tt);
  joins = ((refl, refl), tt);
}

program-fits_example :
    (p : Program whole) × (program branches buses "s" watt false ≡ ok p)
    × (p.equalities.counteq ≡ equation_count watt branches buses "s")
    × (p.equalities.counteq ≤ p.equalities.rows)
    × (p.inequalities.counteq ≤ p.inequalities.rows)
    × (limit_count p.equalities.limits ≡ limits_of watt (sizes_of branches buses))
program-fits_example = program-fits branches buses "s" watt network (bus_at 0) refl false

abbrev assembled : ControlType → Program whole
assembled control = (program-fits branches buses "s" control network (bus_at 0) refl false).0

abbrev values : List ℕ
values = replicate 42 9

abbrev solver : Program whole → Answer whole
solver p = solved values

optimal_power_flow-IsAnswered_example :
    (r : Opf whole) × (optimal_power_flow solver branches buses "s" watt false ≡ ok r)
    × IsAnswered whole
        (sizes_of branches buses)
        values
        (state_variable_number (sizes_of branches buses))
        buses
        r
unfolding sizes_of count_branches count_buses control_start
optimal_power_flow-IsAnswered_example =
    optimal_power_flow-IsAnswered solver branches buses "s" (bus_at 0) false network refl
      (assembled watt) values refl refl watt (state_variable_number (sizes_of branches buses))
      ((program-fits branches buses "s" watt network (bus_at 0) refl false).1) refl
      (refl, (refl, tt))

optimal_power_flow-watt_var_example :
    optimal_power_flow solver branches buses "s" watt_var false ≡ raise unbound_local_error
unfolding sizes_of count_branches count_buses
optimal_power_flow-watt_var_example =
    optimal_power_flow-watt_var solver branches buses "s" (bus_at 0) false network refl
      (assembled watt_var) values refl refl
      ((program-fits branches buses "s" watt_var network (bus_at 0) refl false).1)

abbrev empty : Build whole
empty = record {
  counteq = 1;
  rows = 4;
  cols = 9;
  a_cells = [];
  b_cells = [];
  v_lim = [];
  limits = none;
}

power_balance-flow_coefficient_example :
    (t : Build whole) × (power_balance {F = whole} (pos 1 ∷ []) (pos 0 ∷ []) 2 8 empty ≡ (ok tt, t))
    × (t.counteq ≡ 1)
    × (rhs_at whole t.b_cells 1 ≡ 0)
    × ((c : ℕ)
        → cell_at whole t.a_cells 1 c ≡ flow_coefficient whole (pos 1 ∷ []) (pos 0 ∷ []) 2 8 c 0)
power_balance-flow_coefficient_example =
    power_balance-flow_coefficient (pos 1 ∷ []) (pos 0 ∷ []) 2 3 8 empty (omega arith)
      (omega arith, tt) (omega arith, tt) (omega arith) (omega arith)

whole-IsOrdered : IsOrdered whole
whole-IsOrdered = record {
  irreflexive = λ x. ground arith;
  transitive = λ x y z. ground arith;
  asymmetric = λ x y. ground arith;
}

abbrev set_points : Dict ℕ
set_points = ("A", 3) ∷ ("B", 7) ∷ ("C", 5) ∷ []

ignore_phase-greatest_example :
    (ltb (ignore_phase whole set_points) 5 ≡ false)
    × ((ignore_phase whole set_points ≡ 0)
        ⊎ ((key : String) × (i : ℕ) × (get_elem? set_points i
              ≡ some (key, ignore_phase whole set_points))))
ignore_phase-greatest_example = ignore_phase-greatest whole whole-IsOrdered set_points "C" 5 refl
