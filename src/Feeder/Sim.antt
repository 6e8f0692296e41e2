-- ===== src/Feeder/Sim.antt =====
-- The object of class `FeederSimulator`: its state, and the calls that it makes of OpenDSS.
use sgidal_example.Prelude.{ℕ, Bool, true, false, String, Option, List, ◌∷◌, Dict}
use sgidal_example.Prelude.Exec.{Exec, modify}
use sgidal_example.Floats.{Floats}
use sgidal_example.Feeder.Engine.{Command, Call, text, History}

pub data OpenDssState : Type 0 where
  unloaded loaded snapshot_run solve_at_time disabled_run disabled_solve disabled : OpenDssState

-- What the simulator knows of the inverters that it made.
pub record Registry : Type 0 where
  pub pvsystems : List String
  pub inverters : List String
  pub inverter_to_pvsystems : Dict (List String)
  pub pvsystem_to_inverter : Dict String
  pub inverter_counter : ℕ
  pub xycurve_counter : ℕ

pub record Sim (F : Floats) : Type 0 where
  pub state : OpenDssState
  -- all that was sent to OpenDSS
  pub history : History
  pub all_node_names : List String
  pub name_index_dict : Dict ℕ
  pub source_indexes : List ℕ
  pub vbase_allnode : List F.Float
  pub registry : Registry
  pub tap_setting : Option ℕ
  pub open_lines : Option (List String)
  pub feeder_file : String

-- `self._state == OpenDSSState.…`
abbrev pub is_unloaded : OpenDssState → Bool
is_unloaded unloaded = true
is_unloaded _ = false

abbrev pub is_disabled : OpenDssState → Bool
is_disabled disabled = true
is_disabled _ = false

abbrev pub is_disabled_run : OpenDssState → Bool
is_disabled_run disabled_run = true
is_disabled_run _ = false

abbrev pub is_disabled_solve : OpenDssState → Bool
is_disabled_solve disabled_solve = true
is_disabled_solve _ = false

abbrev pub is_snapshot_run : OpenDssState → Bool
is_snapshot_run snapshot_run = true
is_snapshot_run _ = false

abbrev pub is_solve_at_time : OpenDssState → Bool
is_solve_at_time solve_at_time = true
is_solve_at_time _ = false

module _ {F : Floats} where
  abbrev pub send : Call → Exec (Sim F) (Unit {0})
  send c = modify (λ s. record s { history = c ∷ s.history })

  -- `dss.Text.Command(t)`
  abbrev pub command : Command → Exec (Sim F) (Unit {0})
  command t = send (text t)

  -- `self._state = …`
  abbrev pub set_state : OpenDssState → Exec (Sim F) (Unit {0})
  set_state st = modify (λ s. record s { state = st })
