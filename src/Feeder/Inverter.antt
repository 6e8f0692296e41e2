-- ===== src/Feeder/Inverter.antt =====
-- The inverters that the simulator creates in OpenDSS, and their settings.
pub mod Invariant
pub mod Control
pub mod Again
use sgidal_example.Prelude.{
  ℕ, ◌+◌, String, append, str_eq, Bool, not, ◌&&◌, Option, none, some, List, [], ◌∷◌, map, Result,
  ok, or_raise, index_error, key_error, assert, map_result, Dict, insert, lookup, has_key, mem, add,
  set_eq, all, length, get_elem?, split_dot, join, lower, decimal, if◌then◌else◌, ◌==◌,
}
use sgidal_example.Prelude
use sgidal_example.Prelude.Exec.{Exec, pure, throw, lift, gets, asks, modify, ensure, ◌>>=◌, ◌>>◌}
use sgidal_example.Floats.{Floats}
use sgidal_example.Feeder.Engine.{new_inverter, new_xy_curve, set_property}
use sgidal_example.Feeder.Sim.{Sim, Registry, command}
use sgidal_example.Feeder.Load.{add_all}

pub record VoltVar (F : Floats) : Type 0 where
  pub voltage : List F.Float
  pub reactive_response : List F.Float
  pub deltaq_factor : F.Float
  pub varchangetolerance : F.Float
  pub voltagechangetolerance : F.Float
  pub vv_refreactivepower : String

pub record VoltWatt (F : Floats) : Type 0 where
  pub voltage : List F.Float
  pub power_response : List F.Float
  pub deltap_factor : F.Float

-- The data type `InverterControl`; of its mode the program reads whether it is the combined one,
-- `voltvar_voltwatt`, and its value.
pub record InverterControl (F : Floats) : Type 0 where
  pub pvsystem_list : Option (List String)
  pub vvcontrol : Option (VoltVar F)
  pub vwcontrol : Option (VoltWatt F)
  pub is_combined : Bool
  pub mode_value : String

unfoldable pub inverter_name : ℕ → String
inverter_name n = append "InvControl.invgenerated" (decimal n)

-- `name.split(".")[1]`
abbrev pub after_dot : String → Result String
after_dot name = or_raise (get_elem? (split_dot name) 1) index_error

-- `pv_name.split(".")[0].lower() == "pvsystem"`
abbrev pub is_pvsystem : String → Result Bool
is_pvsystem pv_name =
    Prelude.◌>>=◌ (or_raise (get_elem? (split_dot pv_name) 0) index_error)
      (λ kind. ok (str_eq (lower kind) "pvsystem"))

-- Every PV system of the set exists and has no inverter yet.
unfoldable pub may_assign : Registry → List String → Bool
may_assign r = all (λ p. not (has_key p r.pvsystem_to_inverter) && mem p r.pvsystems)

-- The text between the brackets of `PVsystemList`.
unfoldable pub pv_list : List String → List String → Result String
pv_list pvsystem_set pvsystems =
    if set_eq pvsystem_set pvsystems
    then ok ""
    else Prelude.◌>>=◌ (map_result after_dot pvsystem_set) (λ names. ok (join ", " names))

-- The loop `for pvsystem in pvsystem_set: self._pvsystem_to_inverter[pvsystem] = name`.
unfoldable pub assign_all : List String → String → Dict String → Dict String
assign_all [] name d = d
assign_all (p ∷ ps) name d = assign_all ps name (insert p name d)

-- The four updates at the end of `create_inverter`.
unfoldable pub register : String → List String → Registry → Registry
register name pvsystem_set r = record r {
  inverter_counter = r.inverter_counter + 1;
  inverters = add name r.inverters;
  pvsystem_to_inverter = assign_all pvsystem_set name r.pvsystem_to_inverter;
  inverter_to_pvsystems = insert name pvsystem_set r.inverter_to_pvsystems;
}

module _ {F : Floats} where
  unfoldable pub create_inverter : List String → Exec (Sim F) String
  create_inverter pvsystem_set = do
    ensure (λ s. may_assign s.registry pvsystem_set)
    name ← gets (λ s. inverter_name s.registry.inverter_counter)
    kinds ← lift (map_result is_pvsystem pvsystem_set)
    lift (assert (all (λ k. k) kinds))
    pvlist ← asks (λ s. pv_list pvsystem_set s.registry.pvsystems)
    command (new_inverter name pvlist)
    modify (λ s. record s { registry = register name pvsystem_set s.registry })
    pure name

  unfoldable pub create_xy_curve : List F.Float → List F.Float → Exec (Sim F) String
  create_xy_curve x y = do
    name ← gets (λ s. append "XYcurve.xygenerated" (decimal s.registry.xycurve_counter))
    lift (assert (length x == length y))
    command (new_xy_curve name (length x) (join "," (map F.show y)) (join "," (map F.show x)))
    modify (λ s. record s {
      registry = record (s.registry) { xycurve_counter = s.registry.xycurve_counter + 1 };
    })
    pure name

  -- The branch `inv_control.vvcontrol is not None`.
  unfoldable pub set_vvcontrol : String → VoltVar F → Exec (Sim F) (Unit {0})
  set_vvcontrol inverter vv = do
    curve ← create_xy_curve vv.voltage vv.reactive_response
    short ← lift (after_dot curve)
    command (set_property inverter "vvc_curve1" short)
    command (set_property inverter "deltaQ_factor" (F.show vv.deltaq_factor))
    command (set_property inverter "VarChangeTolerance" (F.show vv.varchangetolerance))
    command (set_property inverter "VoltageChangeTolerance" (F.show vv.voltagechangetolerance))
    command (set_property inverter "VV_RefReactivePower" vv.vv_refreactivepower)

  -- The branch `inv_control.vwcontrol is not None`.
  unfoldable pub set_vwcontrol : String → VoltWatt F → Exec (Sim F) (Unit {0})
  set_vwcontrol inverter vw = do
    curve ← create_xy_curve vw.voltage vw.power_response
    short ← lift (after_dot curve)
    command (set_property inverter "voltwatt_curve" short)
    command (set_property inverter "deltaP_factor" (F.show vw.deltap_factor))

  abbrev pub when_some :
      {A : Type 0} → Option A → (A → Exec (Sim F) (Unit {0})) → Exec (Sim F) (Unit {0})
  when_some none f = pure tt
  when_some (some a) f = f a

  unfoldable pub set_properties_to_inverter : String → InverterControl F → Exec (Sim F) (Unit {0})
  set_properties_to_inverter inverter c = do
    when_some c.vvcontrol (set_vvcontrol inverter)
    when_some c.vwcontrol (set_vwcontrol inverter)
    command (
        if c.is_combined
        then set_property inverter "CombiMode" "VV_VW"
        else set_property inverter "Mode" c.mode_value)

-- The set comprehension over the PV systems that have an inverter.
unfoldable pub inverters_of : List String → Dict String → List String → List String
inverters_of [] d found = found
inverters_of (p ∷ ps) d found = elim (lookup p d) [
  | none ↦ inverters_of ps d found
  | some i ↦ inverters_of ps d (add i found)
]

unfoldable pub wanted : {F : Floats} → InverterControl F → Registry → List String
wanted c r = elim c.pvsystem_list [ none ↦ r.pvsystems | some l ↦ add_all l [] ]

module _ {F : Floats} where
  -- One inverter for the whole set, or a new one.
  unfoldable pub find_inverter : List String → Exec (Sim F) String
  find_inverter pvsystem_set s =
      elim (inverters_of pvsystem_set s.registry.pvsystem_to_inverter []) [
        | [] ↦ create_inverter pvsystem_set s
        | inverter ∷ others ↦ elim others [
          | [] ↦ (ok inverter, s)
          | _ ∷ _ ↦ create_inverter pvsystem_set s
        ]
      ]

  unfoldable pub apply_inverter_control : InverterControl F → Exec (Sim F) String
  unfolding wanted
  apply_inverter_control c = do
    pvsystem_set ← gets (λ s. wanted c s.registry)
    inverter ← find_inverter pvsystem_set
    controlled ← asks (λ s. or_raise (lookup inverter s.registry.inverter_to_pvsystems) key_error)
    lift (assert (set_eq controlled pvsystem_set))
    set_properties_to_inverter inverter c
    pure inverter
