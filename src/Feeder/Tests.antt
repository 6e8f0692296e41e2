-- ===== src/Feeder/Tests.antt =====
-- The feeder's theorems at a small feeder, and runs of its methods.
use sgidal_example.Prelude.{
  String, ◌≡◌, ◌↔◌, refl, true, false, none, some, List, [], ◌∷◌, arith, ok, raise, assertion_error,
  value_error, lookup, get_elem?, split_dot, lower, decimal, join, mem, eq_iff, upper,
}
use sgidal_example.Floats.{Complex}
use sgidal_example.Samples.{whole, node_names, engine, engine_with, feeder}
use sgidal_example.Indexing.{index_map, permutation}
use sgidal_example.Feeder.Engine.{Engine, History, Coo, regcontrol, first_pv, next_pv}
use sgidal_example.Feeder.Sim.{Sim, solve_at_time}
use sgidal_example.Feeder.Run.{reenable, snapshot_run, disable_elements, solve}
use sgidal_example.Feeder.Matrix.{permute_entry, permute_matrix, fits, get_load_y_matrix}
use sgidal_example.Feeder.Enabled.{
  AllReenabled, enabled, snapshot_run-enabled, load_y_matrix-enabled,
}
use sgidal_example.Feeder.States.{KnowsNodes, Refines, load_y_matrix, perform-Refines}
use sgidal_example.Feeder.Load.{add_all}
use sgidal_example.Feeder.Voltages.{Labelled, pair_up, place, get_voltages}
use sgidal_example.Feeder.Voltages.Placement.{get_voltages-positions}
use sgidal_example.Feeder.Inverter.{
  InverterControl, set_properties_to_inverter, inverters_of, may_assign, inverter_name, pv_list,
  register, assign_all, create_inverter, find_inverter, apply_inverter_control, wanted,
}
use sgidal_example.Feeder.Inverter.Invariant.{IsConsistent, create_inverter-IsConsistent}
use sgidal_example.Feeder.Inverter.Control.{SameInverters, apply-IsConsistent, apply-controls}
use sgidal_example.Feeder.Inverter.Again.{apply-conflict, apply-again}
use sgidal_example.Feeder.Pv.{set_pv_output}
use sgidal_example.Feeder.Pv.Results.{set_pv_output_unknown}
use sgidal_example.Feeder.Incidence.{get_incidences}
use sgidal_example.Feeder.Incidence.Columns.{activated, get_incidences-rows}

abbrev after_snapshot : Sim whole
after_snapshot = (snapshot_run feeder).1

abbrev solved : Sim whole
solved = (solve 3 0 after_snapshot).1

snapshot_run-enabled_example :
    ((snapshot_run feeder).0 ≡ ok tt)
    × AllReenabled after_snapshot.history
    × (enabled regcontrol after_snapshot.history ≡ none)
snapshot_run-enabled_example = snapshot_run-enabled feeder refl

abbrev matrix : Coo (Complex whole)
matrix = record { entries = record { row = 0; col = 1; value = (7, 8) } ∷ []; shape = (3, 3) }

load_y_matrix-enabled_example :
    ((get_load_y_matrix engine solved).1.state ≡ solve_at_time)
    × AllReenabled (get_load_y_matrix engine solved).1.history
    × (enabled regcontrol (get_load_y_matrix engine solved).1.history ≡ some false)
unfolding get_load_y_matrix disable_elements reenable permutation permute_matrix permute_entry fits
    index_map solve snapshot_run
load_y_matrix-enabled_example = load_y_matrix-enabled engine solved matrix refl

engine-KnowsNodes : (h : History) → KnowsNodes engine node_names h
engine-KnowsNodes h = record {
  named = (refl, (refl, (refl, tt)));
  within = ((omega arith, omega arith), tt);
  rows = omega arith;
  columns = omega arith;
}

perform-Refines_example : Refines engine load_y_matrix solved
unfolding solve snapshot_run
perform-Refines_example = perform-Refines engine load_y_matrix solved (engine-KnowsNodes _)

-- OpenDSS has moved the last two nodes.
abbrev moved : Engine whole
moved = engine_with ("A.1" ∷ "C.1" ∷ "B.1" ∷ [])

abbrev moved_voltages : Labelled (Complex whole)
moved_voltages = record {
  values = (11, 12) ∷ (31, 32) ∷ (21, 22) ∷ [];
  ids = "A.1" ∷ "C.1" ∷ "B.1" ∷ [];
}

-- The voltage of "B.1" stands at the position of "B.1", beside the label "C.1".
get_voltages-positions_example :
    (get_elem? moved_voltages.values 1 ≡ some (31, 32))
    × (moved_voltages.ids ≡ "A.1" ∷ "C.1" ∷ "B.1" ∷ [])
unfolding get_voltages pair_up place index_map
get_voltages-positions_example =
    get_voltages-positions moved feeder
      (("A.1", (11, 12)) ∷ ("C.1", (21, 22)) ∷ ("B.1", (31, 32)) ∷ []) moved_voltages
      (refl, (refl, (refl, tt))) refl refl refl 1 "B.1" (31, 32) refl refl

abbrev one_pv : List String → InverterControl whole
one_pv pvs = record {
  pvsystem_list = some pvs;
  vvcontrol = none;
  vwcontrol = none;
  is_combined = false;
  mode_value = "VOLTVAR";
}

feeder-IsConsistent : IsConsistent feeder.registry
feeder-IsConsistent = record {
  owner = λ p i e. absurd (cc);
  owned = λ p i ps e m. absurd (cc);
  named = λ i ps e. absurd (cc);
}

create_inverter-IsConsistent_example :
    IsConsistent (create_inverter ("PVSystem.pv1" ∷ []) feeder).1.registry
create_inverter-IsConsistent_example =
    create_inverter-IsConsistent ("PVSystem.pv1" ∷ []) feeder feeder-IsConsistent

abbrev control1 : InverterControl whole
control1 = one_pv ("PVSystem.pv1" ∷ [])

abbrev controlled1 : Sim whole
controlled1 = (apply_inverter_control control1 feeder).1

abbrev controlled2 : Sim whole
controlled2 = (apply_inverter_control (one_pv ("PVSystem.pv2" ∷ [])) controlled1).1

apply-IsConsistent_example : IsConsistent controlled1.registry
apply-IsConsistent_example = apply-IsConsistent control1 feeder feeder-IsConsistent

apply-controls_example :
    (lookup "PVSystem.pv1" controlled1.registry.pvsystem_to_inverter
      ≡ some "InvControl.invgenerated0")
    ↔ (mem "PVSystem.pv1" (wanted control1 feeder.registry) ≡ true)
unfolding apply_inverter_control find_inverter create_inverter set_properties_to_inverter
    inverters_of may_assign inverter_name pv_list register assign_all split_dot lower decimal join
    add_all
apply-controls_example =
    apply-controls control1 feeder "InvControl.invgenerated0" feeder-IsConsistent refl
      "PVSystem.pv1"

-- Each of the two PV systems has its own inverter; a control for both is refused.
apply-conflict_example :
    apply_inverter_control (one_pv ("PVSystem.pv1" ∷ "PVSystem.pv2" ∷ [])) controlled2
    ≡ (raise assertion_error, controlled2)
unfolding apply_inverter_control find_inverter create_inverter set_properties_to_inverter
    inverters_of may_assign inverter_name pv_list register assign_all split_dot lower decimal join
    add_all
apply-conflict_example =
    apply-conflict (one_pv ("PVSystem.pv1" ∷ "PVSystem.pv2" ∷ [])) controlled2 "PVSystem.pv1"
      "PVSystem.pv2" "InvControl.invgenerated0" "InvControl.invgenerated1" refl refl refl refl
      (ground (arith, eq_iff "InvControl.invgenerated0" "InvControl.invgenerated1"))

apply-again_example :
    (find_inverter ("PVSystem.pv1" ∷ []) controlled1 ≡ (ok "InvControl.invgenerated0", controlled1))
    × SameInverters (apply_inverter_control control1 controlled1).1.registry controlled1.registry
unfolding apply_inverter_control find_inverter create_inverter set_properties_to_inverter
    inverters_of may_assign inverter_name pv_list register assign_all split_dot lower decimal join
    add_all
apply-again_example =
    apply-again control1 feeder "InvControl.invgenerated0" "PVSystem.pv1" [] control1
      feeder-IsConsistent refl refl refl

set_pv_output_unknown_example :
    set_pv_output engine "pv9" 5 0 feeder
    ≡ (raise value_error, record feeder { history = next_pv ∷ first_pv ∷ feeder.history })
set_pv_output_unknown_example = set_pv_output_unknown engine "pv9" 5 0 feeder refl

get_incidences-rows_example : get_incidences engine feeder ≡ (
  ok (record {
    from_equipment = "A.1" ∷ "A.1" ∷ "A.1" ∷ [];
    to_equipment = "B.1" ∷ "B.1" ∷ "B.1" ∷ [];
    ids = "l1" ∷ "l2" ∷ "t1" ∷ [];
    equipment_types = "Line" ∷ "Line" ∷ "Transformer" ∷ [];
  }),
  record feeder {
    history =
        activated "Transformer" ("t1" ∷ []) (activated "Line" ("l1" ∷ "l2" ∷ []) feeder.history);
  },
)
unfolding upper
get_incidences-rows_example = get_incidences-rows engine feeder refl
