-- ===== src/Lindistflow/Optimal.antt =====
-- `optimal_power_flow` on a network that is all primary.
use sgidal_example.Prelude.{
  length, set, All-map, ok_injective, Result, Dict, lookup, keys, IsUnique, unbound_local_error, ok,
  raise, ℕ, zero, suc, ◌*◌, ◌≤◌, ◌<◌, String, ◌≡◌, refl, sym, ap, ◌∙◌, Bool, Option, none, some,
  List, arith,
}
use sgidal_example.Floats.{Floats}
use sgidal_example.Area.{AreaBus, AreaBranch}
use sgidal_example.Lindistflow.{ControlType, watt, var, watt_var}
use sgidal_example.Lindistflow.Build.{Sizes, n_bus, variable_number, n_qdg, sizes_of}
use sgidal_example.Lindistflow.Limits.{range_from, limit_at}
use sgidal_example.Lindistflow.Solution.{control_start, generation_output}
use sgidal_example.Lindistflow.Program.{
  Program, Answer, solved, Opf, program, values_of, read_solution, optimal_power_flow,
}
use sgidal_example.Lindistflow.Reading.{bus_voltages-Succeeds}
use sgidal_example.Lindistflow.Answered.{
  IsAnswered, flows-Succeeds, placed-Succeeds, read_solution-IsAnswered,
}
use sgidal_example.Lindistflow.Bounds.{limit_count}
use sgidal_example.Lindistflow.Bounds.Control.{limits_of}
use sgidal_example.Lindistflow.Bounds.Flow.{IsPrimaryBus}
use sgidal_example.Lindistflow.Bounds.Assembly.{IsPrimaryNetwork, program-fits, lookup-All}

module _ {A : Type 0} where
  -- The limits that the modes with a start of their control have set.
  limits-known :
      (control : ControlType) (z : Sizes) (first : ℕ) (limits : Option (List A))
      → control_start control z ≡ ok first
      → limit_count limits ≡ limits_of control z
      → (set : List A) × (limits ≡ some set) × (length set ≡ n_bus z) × (first ≤ n_qdg z)
  unfolding control_start
  limits-known watt z first none starts count = absurd (omega arith)
  limits-known watt z first (some set) starts count =
      let start = ok_injective starts in (set, refl, omega arith, omega arith)
  limits-known var z first none starts count = absurd (omega arith)
  limits-known var z first (some set) starts count =
      let start = ok_injective starts in (set, refl, omega arith, omega arith)
  limits-known watt_var z first limits starts count = absurd (cc)

  limits-unbound : (limits : Option (List A)) → limit_count limits ≡ 0 → limits ≡ none
  limits-unbound none count = refl
  limits-unbound (some set) count = absurd (omega arith)

module _ {F : Floats} (solver : Program F → Answer F) (branch_info : Dict (AreaBranch F))
    (bus_info : Dict (AreaBus F)) (source_bus : String) (source : AreaBus F) (pf_flag : Bool)
    (network : IsPrimaryNetwork branch_info bus_info)
    (known : lookup source_bus bus_info ≡ some source) (p : Program F) (xs : List F.Float)
    (answers : solver p ≡ solved xs)
    (whole : length xs ≡ variable_number (sizes_of branch_info bus_info)) where
  -- For a network that is all primary, with each bus once and a control of real or of reactive power,
  -- an answer of the solver with a value for each variable makes `optimal_power_flow` return: for each
  -- bus the roots of its three squared voltages and its three set points, each from its own column.
  pub optimal_power_flow-IsAnswered :
      (control : ControlType) (first : ℕ)
      → program branch_info bus_info source_bus control pf_flag ≡ ok p
      → control_start control (sizes_of branch_info bus_info) ≡ ok first
      → IsUnique (keys bus_info)
      → (r : Opf F) × (optimal_power_flow solver branch_info bus_info source_bus control pf_flag
          ≡ ok r)
        × IsAnswered F (sizes_of branch_info bus_info) xs first bus_info r
  unfolding optimal_power_flow values_of
  optimal_power_flow-IsAnswered control first assembled starts unique =
      let (p', made, _, _, _, count) =
        program-fits branch_info bus_info source_bus control network source known pf_flag in
      let same =
        ap (λ (q : Program F). limit_count q.equalities.limits)
          (ok_injective (sym made ∙ assembled)) in
      let (limits, set, bound, low) =
        limits-known control (sizes_of branch_info bus_info) first p.equalities.limits starts
          (sym same ∙ count) in
      let (r, read, answered) =
        read_solution-IsAnswered F branch_info bus_info network xs whole control limits first bound
          starts low unique in
      (r, rw (assembled, answers, set) read, answered)

  -- Nothing is read in the third mode.
  generation_output-unbound :
      (n : ℕ) (start : Result ℕ)
      → 0 < n
      → generation_output F (sizes_of branch_info bus_info) none xs start (range_from 0 n)
        ≡ raise unbound_local_error
  unfolding generation_output limit_at
  generation_output-unbound zero start h = absurd (omega arith)
  generation_output-unbound (suc n) start h = refl

  -- For a network that is all primary the combined control ends in an `UnboundLocalError` whenever the
  -- solver gives a value for each variable.
  pub optimal_power_flow-watt_var :
      program branch_info bus_info source_bus watt_var pf_flag ≡ ok p
      → optimal_power_flow solver branch_info bus_info source_bus watt_var pf_flag
        ≡ raise unbound_local_error
  unfolding optimal_power_flow values_of read_solution
  optimal_power_flow-watt_var assembled =
      let z = sizes_of branch_info bus_info in
      let (p', made, _, _, _, count) =
        program-fits branch_info bus_info source_bus watt_var network source known pf_flag in
      let same =
        ap (λ (q : Program F). limit_count q.equalities.limits)
          (ok_injective (sym made ∙ assembled)) in
      let unbound = limits-unbound p.equalities.limits (sym same ∙ count) in
      let numbered = All-map (λ p h. h.0) bus_info network.buses in
      let inside = (lookup-All (IsPrimaryBus z) source_bus bus_info source network.buses known).0 in
      let (flows, flow) = flows-Succeeds F branch_info bus_info network xs whole in
      let (placed, place) = placed-Succeeds F branch_info bus_info network xs whole in
      let (voltages, read) = bus_voltages-Succeeds F z xs whole bus_info placed numbered in
      let fails =
        generation_output-unbound (z.nbus_abc * 3) (control_start watt_var z) (omega arith) in
      rw (assembled, answers, unbound, flow, place, read, fails) refl
