-- ===== src/Lindistflow/Program.antt =====
-- The whole of `optimal_power_flow`: the equations, the inequalities, the solver and its answer.
use sgidal_example.Prelude.{
  or_raise, Result, Dict, lookup, keys, key_error, type_error, ok, raise, system_exit, ℕ, ◌+◌, ◌*◌,
  String, Bool, Option, List, [], map,
}
use sgidal_example.Prelude
use sgidal_example.Prelude.Exec.{Exec, lift, for_each, ◌>>=◌, ◌>>◌}
use sgidal_example.Floats.{Floats}
use sgidal_example.Area.{AreaBus, AreaBranch}
use sgidal_example.Lindistflow.{ControlType, watt, var, watt_var}
use sgidal_example.Lindistflow.Build.{
  Sizes, Build, sizes_of, n_bus, state_variable_number, n_qdg, zeros,
}
use sgidal_example.Lindistflow.Balance.{flow_constraints}
use sgidal_example.Lindistflow.Drop.{primary_drops, secondary_drops, source_voltage}
use sgidal_example.Lindistflow.Injection.{base_s, injections, secondary_reactive}
use sgidal_example.Lindistflow.Limits.{range_from, inequalities}
use sgidal_example.Lindistflow.Solution.{
  line_flows, placed_voltages, bus_voltages, control_start, generation_output, control_variables,
}

pub record Program (F : Floats) : Type 0 where
  pub objective : List (ℕ × F.Float)
  pub equalities : Build F
  pub inequalities : Build F

-- What cvxpy answers: a status of infeasibility, no value, or the values of the variables.
pub data Answer (F : Floats) : Type 0 where
  infeasible no_value : Answer F
  solved : List F.Float → Answer F

pub record Opf (F : Floats) : Type 0 where
  pub bus_voltage : Dict (Dict F.Float)
  pub line_flow : Dict (Dict (F.Float × F.Float))
  pub control : Dict (Dict F.Float)
  pub kw_converter : F.Float

module _ (F : Floats) where
  -- `q_obj_vector`, by what is written to it.
  unfoldable pub objective : ControlType → Sizes → List (ℕ × F.Float)
  objective watt z =
      map (λ k. (state_variable_number z + k, F.neg (F.from_ℕ 1))) (range_from 0 (n_bus z))
  objective var z = map (λ k. (n_qdg z + k, F.from_ℕ 0)) (range_from 0 (n_bus z))
  objective watt_var z = []

module _ {F : Floats} where
  unfoldable pub equations :
      ControlType
      → Sizes
      → F.Float
      → Dict (AreaBranch F)
      → Dict (AreaBus F)
      → String
      → Exec (Build F) (Unit {0})
  equations control z base_z branch_info bus_info source_bus = do
    flow_constraints z branch_info bus_info source_bus
    primary_drops z base_z 0 branch_info
    secondary_drops z base_z 0 branch_info
    source ← lift (or_raise (lookup source_bus bus_info) key_error)
    source_voltage z source.idx
    injections control z bus_info source_bus
    for_each bus_info (λ p. secondary_reactive z p.1)

  -- `baseZ`, by the voltage of the source.
  unfoldable pub base_impedance : Dict (AreaBus F) → String → Result F.Float
  base_impedance bus_info source_bus =
      Prelude.◌>>=◌ (or_raise (lookup source_bus bus_info) key_error) (λ b.
        let base_kv = F.over b.kv (F.sqrt (F.from_ℕ 3)) in
        ok (F.over (F.times base_kv base_kv) (F.from_ℕ 100)))

  unfoldable pub program :
      Dict (AreaBranch F) → Dict (AreaBus F) → String → ControlType → Bool → Result (Program F)
  program branch_info bus_info source_bus control pf_flag =
      let z = sizes_of branch_info bus_info in
      Prelude.◌>>=◌ (base_impedance bus_info source_bus) (λ base_z.
        let filled = equations control z base_z branch_info bus_info source_bus (zeros z) in
        Prelude.◌>>=◌ filled.0 (λ _.
          let bounded =
            inequalities control z pf_flag (filled.1).limits (filled.1).v_lim (zeros z) in
          Prelude.◌>>=◌ bounded.0 (λ _. ok (record {
            objective = objective F control z;
            equalities = filled.1;
            inequalities = bounded.1;
          }))))

  -- `exit()` where there is no solution; `x.value` is `None` where the solver gave no values.
  unfoldable pub values_of : Answer F → Result (List F.Float)
  values_of infeasible = raise system_exit
  values_of no_value = raise type_error
  values_of (solved xs) = ok xs

  -- What is read of the values. With no branch and no bus none would be read.
  unfoldable pub read_solution :
      Dict (AreaBranch F)
      → Dict (AreaBus F)
      → ControlType
      → Option (List F.Float)
      → List F.Float
      → Result (Opf F)
  read_solution branch_info bus_info control limits xs =
      let z = sizes_of branch_info bus_info in
      let start = control_start control z in
      Prelude.◌>>=◌ (line_flows F z xs (keys branch_info) (range_from 0 z.nbranch_abc) []) (λ flows.
        Prelude.◌>>=◌ (placed_voltages F z xs (keys bus_info) (range_from 0 z.nbus_abc) [])
          (λ placed. Prelude.◌>>=◌ (bus_voltages F z xs bus_info placed) (λ voltages.
            Prelude.◌>>=◌ (generation_output F z limits xs start (range_from 0 (z.nbus_abc * 3)))
              (λ _. Prelude.◌>>=◌ (control_variables F z xs start bus_info []) (λ control.
                ok (record {
                  bus_voltage = voltages;
                  line_flow = flows;
                  control = control;
                  kw_converter = F.over (F.over (F.from_ℕ 1) (base_s F)) (F.from_ℕ 1000);
                }))))))

-- `prob.solve(solver=cp.ECOS)` is cvxpy's: a parameter.
module _ {F : Floats} (solver : Program F → Answer F) where
  unfoldable pub optimal_power_flow :
      Dict (AreaBranch F) → Dict (AreaBus F) → String → ControlType → Bool → Result (Opf F)
  optimal_power_flow branch_info bus_info source_bus control pf_flag =
      Prelude.◌>>=◌ (program branch_info bus_info source_bus control pf_flag) (λ p.
        Prelude.◌>>=◌ (values_of (solver p))
          (λ xs. read_solution branch_info bus_info control p.equalities.limits xs))
