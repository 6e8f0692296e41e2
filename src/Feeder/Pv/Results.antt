-- ===== src/Feeder/Pv/Results.antt =====
-- What the PV methods return.
use sgidal_example.Prelude.{
  ℕ, zero, suc, String, ◌≡◌, refl, false, Option, none, List, [], ◌∷◌, map, arith, raise,
  value_error, length, mem, replicate, ◌++◌,
}
use sgidal_example.Floats.{Floats}
use sgidal_example.Feeder.Engine.{Engine, History, Pv, solution_solve, first_pv, next_pv}
use sgidal_example.Feeder.Sim.{Sim}
use sgidal_example.Feeder.Voltages.{Labelled}
use sgidal_example.Feeder.Pv.{
  first_irradiance, pv_names, last_named, walk_pvs, get_max_pv_available, set_pv_output,
}

abbrev names : {F : Floats} → List (Pv F) → List String
names = map (λ pv. pv.name)

last_named_unknown :
    {F : Floats} (name : String) (pvs : List (Pv F)) (o : Option (Pv F))
    → mem name (names pvs) ≡ false
    → last_named name pvs o ≡ o
unfolding last_named
last_named_unknown name [] o h = refl
last_named_unknown name (pv ∷ pvs) o h = ground (arith, last_named_unknown name pvs o)

-- The walk over `n` PV systems is all that was sent.
abbrev pub walked : ℕ → History → History
walked n h = replicate n next_pv ++ first_pv ∷ h

-- The mean that halves the sum of the value so far and the next one.
abbrev pub halving_mean : (F : Floats) → F.Float → List F.Float → F.Float
halving_mean F so_far [] = so_far
halving_mean F so_far (x ∷ xs) = halving_mean F (F.over (F.plus so_far x) (F.from_ℕ 2)) xs

module _ {F : Floats} (e : Engine F) where
  -- A set point for a PV system that OpenDSS does not have raises `ValueError`, leaves the simulator
  -- as it is, and has sent OpenDSS nothing but the walk over the PV systems.
  pub set_pv_output_unknown :
      (pv_system : String) (p q : F.Float) (s : Sim F)
      → mem pv_system (names (e.pvsystems s.history)) ≡ false
      → set_pv_output e pv_system p q s ≡ (
        raise value_error,
        record s { history = walked (length (e.pvsystems s.history)) s.history },
      )
  unfolding set_pv_output get_max_pv_available walk_pvs
  set_pv_output_unknown pv_system p q s h =
      ground (arith, last_named_unknown pv_system (e.pvsystems s.history) none h)

  -- The forecast of one step: the system's rating times the halving mean of the irradiances that
  -- OpenDSS has once the step is solved.
  abbrev pub forecast_at : History → Labelled F.Float
  forecast_at h =
      let solved = solution_solve ∷ h in
      let pvs = e.pvsystems solved in
      let again = e.pvsystems (walked (length pvs) solved) in
      let mean = halving_mean F (first_irradiance e pvs) (map (λ pv. pv.irradiance) pvs) in
      record { values = map (λ pv. F.times pv.pmpp mean) again; ids = pv_names again }

  -- What is sent in a step.
  abbrev pub after_step : History → History
  after_step h =
      let solved = solution_solve ∷ h in
      let once = walked (length (e.pvsystems solved)) solved in
      walked (length (e.pvsystems once)) once

  -- The forecasts of the steps, each from what the steps before have sent.
  abbrev pub forecasts_from : ℕ → History → List (Labelled F.Float)
  forecasts_from zero h = []
  forecasts_from (suc n) h = forecast_at h ∷ forecasts_from n (after_step h)

  abbrev pub after_steps : ℕ → History → History
  after_steps zero h = h
  after_steps (suc n) h = after_steps n (after_step h)
