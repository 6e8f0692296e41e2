-- ===== src/Cosim/RoundTests.antt =====
-- The theorems on the loop at one round of the sample feeder.
use sgidal_example.Prelude.{length, All, ok, ℕ, ◌≤◌, refl, false, List, [], ◌∷◌, map, arith}
use sgidal_example.Samples.{whole, engine, feeder}
use sgidal_example.Indexing.{permutation, index_map}
use sgidal_example.Feeder.Engine.{Coo}
use sgidal_example.Feeder.Load.{change_obj}
use sgidal_example.Feeder.Run.{reenable, snapshot_run, solve, disable_elements, ready_to_load_power}
use sgidal_example.Feeder.Matrix.{get_load_y_matrix, permute_matrix, permute_entry, fits}
use sgidal_example.Feeder.Voltages.{
  pair_up, place, circuit_voltages, get_voltages, get_voltages_actual,
}
use sgidal_example.Feeder.Power.{element_powers, get_pqs_load, get_pqs_pv, get_pqs_gen, get_pqs_cap}
use sgidal_example.Feeder.Power.Elements.{get_loads, get_pvsystems, get_generators, get_capacitors}
use sgidal_example.Feeder.Pv.{walk_pvs, get_available_pv}
use sgidal_example.Cosim.{gather, joined, concat_measurement_arrays, xarray_to_powers, get_powers}
use sgidal_example.Cosim.Current.{
  Arrays, agg_to_ids, names_above, where_power_unbalanced, get_current_data,
}
use sgidal_example.Cosim.Loop.{
  Round, Cosim, take_time, request_next, apply_inputs, solve_round, check_balance, checked_data,
  publish_matrix, publish, publish_round, log_first, report, go_round, go_cosim,
}
use sgidal_example.Cosim.Balanced.{IsBalanced, go_cosim-IsBalanced}
use sgidal_example.Cosim.Leaving.{go_cosim-leaves}

-- Arrays of which only the names count.
abbrev arrays : Arrays whole
arrays = record {
  sortby_ids = λ pqs. pqs;
  zeros_like = λ ids. record { values = map (λ id. (0, 0)) ids; ids = ids };
  aligned_sums = λ pqs ids. record { values = map (λ id. (0, 0)) ids; ids = ids };
  plus = λ x y. x;
  times = λ x y. x;
  over = λ x n. x;
  negate = λ x. x;
  conjugate = λ x. x;
  conjugate_matrix = λ m. m;
  apply_matrix = λ m x. x;
  at = λ x indices. ok x;
  set_at = λ x indices y. ok x;
  magnitude = λ z. z.0;
  real_units = "kW";
  imag_units = "kVAR";
}

abbrev matrix : Coo (ℕ × ℕ)
matrix = record { entries = []; shape = (3, 3) }

abbrev clock : ℕ → ℕ × ℕ
clock t = (t, 0)

abbrev start : Cosim whole
start = record {
  sim = feeder;
  request_time = 0;
  published = [];
  published_matrices = [];
  disconnected = false;
}

abbrev rounds : List (Round whole)
rounds = record { granted_time = 0; change_commands = []; inv_control = []; pv_set = [] } ∷ []

go_cosim-IsBalanced_example :
    All (IsBalanced arrays) (go_cosim engine arrays clock false matrix 1 rounds start).1.published
go_cosim-IsBalanced_example = go_cosim-IsBalanced arrays engine clock false matrix 1 rounds start tt

go_cosim-leaves_example :
    1 ≤ length (go_cosim engine arrays clock false matrix 1 rounds start).1.published
unfolding go_cosim go_round take_time request_next checked_data solve_round apply_inputs change_obj
    snapshot_run reenable solve get_current_data get_voltages_actual get_voltages circuit_voltages
    pair_up place get_pqs_load get_pqs_pv get_pqs_gen get_pqs_cap ready_to_load_power element_powers
    get_load_y_matrix disable_elements permute_matrix permute_entry fits check_balance
    where_power_unbalanced names_above report log_first publish publish_round publish_matrix
    walk_pvs get_available_pv get_powers xarray_to_powers concat_measurement_arrays joined gather
    agg_to_ids get_loads get_pvsystems get_generators get_capacitors permutation index_map
go_cosim-leaves_example =
    go_cosim-leaves engine arrays clock false matrix 1 rounds start refl (omega arith) refl
