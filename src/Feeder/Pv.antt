-- ===== src/Feeder/Pv.antt =====
-- The output of PV systems: the set points, the power available and the forecast.
pub mod Results
use sgidal_example.Prelude.{
  ℕ, zero, suc, String, append, str_eq, ◌||◌, Option, none, some, List, [], ◌∷◌, map, value_error,
  or_raise, length, if◌then◌else◌, replicate, ◌++◌,
}
use sgidal_example.Prelude
use sgidal_example.Prelude.Exec.{Exec, pure, lift, gets, modify, ◌>>=◌, ◌>>◌}
use sgidal_example.Floats.{Floats}
use sgidal_example.Feeder.Engine.{Engine, Pv, solution_solve, first_pv, next_pv, set_stepsize}
use sgidal_example.Feeder.Sim.{Sim, send, command}
use sgidal_example.Feeder.Load.{Change, change_obj}
use sgidal_example.Feeder.Voltages.{Labelled}

-- The new values of `%Pmpp` and `kvar`.
unfoldable pub pv_setting : (F : Floats) → F.Float → F.Float → F.Float → String × String
pv_setting F max_pv p q =
    if F.le max_pv (F.from_ℕ 0) || F.eq p (F.from_ℕ 0)
    then ("100", "0")
    else if F.lt p max_pv
    then (F.show (F.times (F.over p max_pv) (F.from_ℕ 100)), F.show q)
    else ("100", F.show (F.times q (F.over max_pv p)))

module _ {F : Floats} where
  -- The loop of `get_max_pv_available`: a later PV system of the same name replaces an earlier one.
  unfoldable pub last_named : String → List (Pv F) → Option (Pv F) → Option (Pv F)
  last_named name [] found = found
  last_named name (pv ∷ pvs) found =
      last_named name pvs (if str_eq pv.name name then some pv else found)

  -- The average that the forecast takes: half of the sum so far and the next irradiance.
  unfoldable pub running_average : F.Float → List (Pv F) → F.Float
  running_average avg [] = avg
  running_average avg (pv ∷ pvs) =
      running_average (F.over (F.plus avg pv.irradiance) (F.from_ℕ 2)) pvs

  abbrev pub pv_names : List (Pv F) → List String
  pv_names = map (λ pv. append "PVSystem." pv.name)

module _ {F : Floats} (e : Engine F) where
  -- The PV systems, as `First` finds the first of them and each `Next` another, the last `Next` none.
  unfoldable pub walk_pvs : Exec (Sim F) (List (Pv F))
  walk_pvs = do
    pvs ← gets (λ s. e.pvsystems s.history)
    modify (λ s. record s { history = replicate (length pvs) next_pv ++ first_pv ∷ s.history })
    pure pvs

  unfoldable pub get_max_pv_available : String → Exec (Sim F) F.Float
  unfolding last_named
  get_max_pv_available pv_system = do
    pvs ← walk_pvs
    pv ← lift (or_raise (last_named pv_system pvs none) value_error)
    pure (F.times pv.irradiance pv.pmpp)

  unfoldable pub set_pv_output : String → F.Float → F.Float → Exec (Sim F) (Unit {0})
  set_pv_output pv_system p q = do
    max_pv ← get_max_pv_available pv_system
    let obj_name = append "PVSystem." pv_system
    let setting = pv_setting F max_pv p q
    change_obj e (
        record { obj_name = obj_name; obj_property = "%Pmpp"; val = setting.0 }
        ∷ record { obj_name = obj_name; obj_property = "kvar"; val = setting.1 }
        ∷ record { obj_name = obj_name; obj_property = "%Cutout"; val = "0" }
        ∷ record { obj_name = obj_name; obj_property = "%Cutin"; val = "0" }
        ∷ [])

  unfoldable pub get_available_pv : Exec (Sim F) (Labelled F.Float)
  get_available_pv = do
    pvs ← walk_pvs
    pure (record { values = map (λ pv. F.times pv.pmpp pv.irradiance) pvs; ids = pv_names pvs })

  abbrev pub first_irradiance : List (Pv F) → F.Float
  first_irradiance [] = e.no_irradiance
  first_irradiance (pv ∷ _) = pv.irradiance

  -- One round of the loop of `forcast_pv`.
  unfoldable pub forecast_step : Exec (Sim F) (Labelled F.Float)
  unfolding running_average
  forecast_step = do
    send solution_solve
    pvs ← walk_pvs
    let avg = running_average (first_irradiance pvs) pvs
    same ← walk_pvs
    pure (record { values = map (λ pv. F.times pv.pmpp avg) same; ids = pv_names same })

  unfoldable pub forecast_steps : ℕ → Exec (Sim F) (List (Labelled F.Float))
  forecast_steps zero = pure []
  forecast_steps (suc steps) =
      let rest = forecast_steps steps in
      forecast_step >>= λ now. rest >>= λ later. pure (now ∷ later)

  unfoldable pub forcast_pv : ℕ → Exec (Sim F) (List (Labelled F.Float))
  unfolding forecast_steps
  forcast_pv steps = do command set_stepsize; forecast_steps steps
