-- ===== src/Lindistflow.antt =====
-- lindistflow_federate/lindistflow.py: the linear programme of the optimal power flow.
pub mod Build
pub mod Balance
pub mod Drop
pub mod Injection
pub mod Limits
pub mod Solution
pub mod Program
pub mod Bounds
pub mod Tests
pub mod Greatest
pub mod Conserved
pub mod Optimal
pub mod Answered
pub mod Stored
pub mod Reading
use sgidal_example.Prelude.{if◌then◌else◌, Dict, [], ◌∷◌}
use sgidal_example.Floats.{Floats}

-- The modes in which the distributed generation is controlled.
pub data ControlType : Type 0 where
  watt var watt_var : ControlType

module _ (F : Floats) where
  -- The set point of greatest size, the first of equals; 0 where there is none.
  unfoldable pub ignore_phase_from : F.Float → Dict F.Float → F.Float
  ignore_phase_from setpoint [] = setpoint
  ignore_phase_from setpoint ((key, val) ∷ rest) =
      ignore_phase_from (if F.lt (F.abs setpoint) (F.abs val) then val else setpoint) rest

  unfoldable pub ignore_phase : Dict F.Float → F.Float
  ignore_phase control = ignore_phase_from (F.from_ℕ 0) control
