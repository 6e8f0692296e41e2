-- ===== src/Opf.antt =====
-- lindistflow_federate/opf_federate.py: the federate around the optimal power flow. What HELICS
-- answers, one round of the loop after another, is a list; a message is what its JSON was parsed to.

pub mod Named
pub mod Commands
pub mod Targeted
mod Tests
use sgidal_example.Prelude.{
  if◌then◌else◌, get_elem?, zip_with, or_raise, Result, Dict, lookup, index_error, ok, String, Bool,
  true, Option, none, some, List, [], ◌∷◌, ◌++◌, str_eq,
}
use sgidal_example.Prelude
use sgidal_example.Prelude.Exec.{Exec, pure, lift, modify, ◌>>=◌, ◌>>◌}
use sgidal_example.Floats.{Floats, Complex}
use sgidal_example.Adapter.Info.{Bus, split_pair}
use sgidal_example.Adapter.Extract.{Admittance, Network}
use sgidal_example.Adapter.Measurements.{
  Power, extract_info, extract_voltages, extract_injection, pack_voltages,
}
use sgidal_example.Area.{AreaBus, AreaBranch, area_info}
use sgidal_example.Lindistflow.{ControlType, watt, var, watt_var, ignore_phase}
use sgidal_example.Lindistflow.Program.{Program, Answer, Opf, optimal_power_flow}

pub record Command (F : Floats) : Type 0 where
  pub obj_name : String
  pub obj_property : String
  pub val : F.Float

-- The messages of a round: of the topology, of the voltages with their time, and of the injection.
pub record Inputs (F : Floats) : Type 0 where
  pub admittances : List (Admittance F)
  pub base_voltages : List (String × F.Float)
  pub slack_bus : List String
  pub voltages : List (String × F.Float)
  pub time : String
  pub real : List (Power F)
  pub imag : List (Power F)

-- A round of the loop: the voltages are updated, or they are not and HELICS grants a time below the
-- maximum, or the maximum.
pub data Round (F : Floats) : Type 0 where
  updated : Inputs F → Round F
  granted : Round F
  max_time : Round F

pub data Publication (F : Floats) : Type 0 where
  change_commands : List (Command F) → Publication F
  opf_voltages : List (String × F.Float) → String → Publication F

pub record Federate (F : Floats) : Type 0 where
  pub published : List (Publication F)
  pub stopped : Bool

unfoldable pub property_of : ControlType → String
property_of watt = "WattPriority"
property_of var = "kVAR"
property_of watt_var = "kVA"

module _ {F : Floats} where
  -- A row of the area as the adapter sees it: `area_info` has put no `eqid` into it.
  unfoldable pub as_bus : AreaBus F → Bus F
  as_bus a = record {
    phases = a.phases;
    kv = a.kv;
    pq = a.pq;
    pv = a.pv;
    eqid = none;
    idx = some a.idx;
  }

  unfoldable pub as_buses : Dict (AreaBus F) → Dict (Bus F)
  as_buses [] = []
  as_buses ((key, a) ∷ rest) = (key, as_bus a) ∷ as_buses rest

  -- The row with what the adapter has written to it.
  unfoldable pub written_back : AreaBus F → Bus F → AreaBus F
  written_back a b = record a { kv = b.kv; pq = b.pq; pv = b.pv }

  unfoldable pub write_back : Dict (AreaBus F) → Dict (Bus F) → Dict (AreaBus F)
  write_back rows buses = zip_with (λ row b. (row.0, written_back row.1 b.1)) rows buses

  -- The buses of the area with the voltages and the injection of the round.
  unfoldable pub measured_buses : Inputs F → Dict (AreaBus F) → Result (Dict (Bus F))
  measured_buses m rows =
      Prelude.◌>>=◌ (extract_voltages m.voltages (as_buses rows))
        (λ buses. extract_injection m.real m.imag buses)

  -- The command for a PV system, where its set point is not small.
  unfoldable pub pv_command :
      ControlType → F.Float → String → Dict F.Float → String → List (Command F)
  pv_command control conversion eqid val kind =
      let setpoint = F.times (ignore_phase F val) conversion in
      if str_eq kind "PVSystem"
      then (if F.lt setpoint (F.literal 1 10)
          then []
          else record { obj_name = eqid; obj_property = property_of control; val = setpoint } ∷ [])
      else []

  -- `if "eqid" in bus: ...`
  unfoldable pub eqid_commands :
      ControlType → F.Float → Dict F.Float → Option String → Result (List (Command F))
  eqid_commands control conversion val none = ok []
  eqid_commands control conversion val (some eqid) =
      Prelude.◌>>=◌ (split_pair eqid) (λ parts. ok (pv_command control conversion eqid val parts.0))

  -- The commands for the equipment at a bus, at most one.
  unfoldable pub bus_commands :
      ControlType → F.Float → Dict F.Float → Option (Bus F) → Result (List (Command F))
  bus_commands control conversion val none = ok []
  bus_commands control conversion val (some b) = eqid_commands control conversion val b.eqid

  -- The loop over `control.items()`.
  unfoldable pub commands_of :
      ControlType → F.Float → Dict (Bus F) → Dict (Dict F.Float) → Result (List (Command F))
  commands_of control conversion buses [] = ok []
  commands_of control conversion buses ((key, val) ∷ rest) =
      Prelude.◌>>=◌ (bus_commands control conversion val (lookup key buses)) (λ first.
        Prelude.◌>>=◌ (commands_of control conversion buses rest) (λ others. ok (first ++ others)))

  unfoldable pub publish : Publication F → Exec (Federate F) (Unit {0})
  publish p = modify (λ s. record s { published = s.published ++ p ∷ [] })

  -- `if commands: ...`
  unfoldable pub publish_commands : List (Command F) → Exec (Federate F) (Unit {0})
  publish_commands [] = pure tt
  publish_commands (c ∷ cs) = publish (change_commands (c ∷ cs))

  unfoldable pub publish_voltages : String → Dict (Dict F.Float) → Exec (Federate F) (Unit {0})
  publish_voltages time voltages = do
    packed ← lift (pack_voltages voltages)
    publish (opf_voltages packed time)

  unfoldable pub stop : Exec (Federate F) (Unit {0})
  stop = modify (λ s. record s { stopped = true })

-- numpy's pseudo-inverse, networkx's components and cvxpy's solver are parameters.
module _ {F : Floats} (neg_pinv : List (List (Complex F)) → List (List (Complex F)))
    (connected_components : List (String × String) → List (List String))
    (solver : Program F → Answer F) where
  -- The area of the slack bus, and its name.
  unfoldable pub area_of : Inputs F → Result (Dict (AreaBranch F) × Dict (AreaBus F) × String)
  area_of m = Prelude.◌>>=◌ (extract_info neg_pinv m.admittances m.base_voltages) (λ network.
      Prelude.◌>>=◌ (or_raise (get_elem? m.slack_bus 0) index_error) (λ slack.
        Prelude.◌>>=◌ (split_pair slack) (λ parts.
          Prelude.◌>>=◌
            (area_info connected_components network.branch_info network.bus_info parts.0)
            (λ area. ok (area.0, area.1, parts.0)))))

  -- The commands of a round, and the voltages that were found.
  unfoldable pub optimised :
      ControlType → Bool → Inputs F → Result (List (Command F) × Dict (Dict F.Float))
  optimised control pf_flag m = Prelude.◌>>=◌ (area_of m) (λ area.
      Prelude.◌>>=◌ (measured_buses m area.1) (λ buses.
        Prelude.◌>>=◌
          (optimal_power_flow solver area.0 (write_back area.1 buses) area.2 control pf_flag)
          (λ found.
            Prelude.◌>>=◌ (commands_of control found.kw_converter buses found.control)
              (λ commands. ok (commands, found.bus_voltage)))))

  -- The two publications of a round.
  unfoldable pub publish_both :
      String → List (Command F) × Dict (Dict F.Float) → Exec (Federate F) (Unit {0})
  publish_both time found = publish_commands found.0 >> publish_voltages time found.1

  -- The body of the loop where the voltages are updated.
  unfoldable pub handle : ControlType → Bool → Inputs F → Exec (Federate F) (Unit {0})
  handle control pf_flag m = lift (optimised control pf_flag m) >>= publish_both m.time

  unfoldable pub loop : ControlType → Bool → List (Round F) → Exec (Federate F) (Unit {0})
  loop control pf_flag [] = pure tt
  loop control pf_flag (max_time ∷ rounds) = stop
  loop control pf_flag (granted ∷ rounds) = loop control pf_flag rounds
  loop control pf_flag (updated m ∷ rounds) =
      let rest = loop control pf_flag rounds in handle control pf_flag m >> rest

  -- `below`: the time that is granted first is below the maximum.
  unfoldable pub run : ControlType → Bool → Bool → List (Round F) → Exec (Federate F) (Unit {0})
  run control pf_flag below rounds = if below then loop control pf_flag rounds else stop
