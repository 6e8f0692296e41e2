-- ===== src/Feeder/Run.antt =====
-- The methods that switch elements on and off and solve.
use sgidal_example.Prelude.{ℕ, Bool, true, false, not, ◌&&◌}
use sgidal_example.Prelude.Exec.{Exec, ensure, ◌>>◌}
use sgidal_example.Floats.{Floats}
use sgidal_example.Feeder.Engine.{
  load, vsource, isource, generator, pvsystem, capacitor, storage, regcontrol, batchedit,
  calc_voltage_bases, set_maxiterations, solve_snapshot, solve_number_one, solve_plain,
  set_mode_yearly,
}
use sgidal_example.Feeder.Sim.{
  snapshot_run as at_snapshot, solve_at_time, disabled_run as after_disabled_run, disabled_solve,
  disabled, Sim, is_unloaded, is_disabled, is_disabled_run, is_solve_at_time, command, set_state,
}

module _ {F : Floats} where
  unfoldable pub reenable : Exec (Sim F) (Unit {0})
  reenable = do
    command (batchedit load true)
    command (batchedit vsource true)
    command (batchedit isource true)
    command (batchedit generator true)
    command (batchedit pvsystem true)
    command (batchedit capacitor true)
    command (batchedit storage false)

  unfoldable pub snapshot_run : Exec (Sim F) (Unit {0})
  unfolding reenable
  snapshot_run = do
    ensure (λ s. not (is_unloaded s.state))
    reenable
    command calc_voltage_bases
    command solve_snapshot
    set_state at_snapshot

  unfoldable pub disable_elements : Exec (Sim F) (Unit {0})
  disable_elements = do
    ensure (λ s. not (is_unloaded s.state))
    command (batchedit regcontrol false)
    command (batchedit vsource false)
    command (batchedit isource false)
    command (batchedit load false)
    command (batchedit generator false)
    command (batchedit pvsystem false)
    command (batchedit capacitor false)
    command (batchedit storage false)
    set_state disabled

  unfoldable pub disabled_run : Exec (Sim F) (Unit {0})
  unfolding disable_elements
  disabled_run = do
    disable_elements
    ensure (λ s. is_disabled s.state)
    command calc_voltage_bases
    command set_maxiterations
    command solve_number_one
    set_state after_disabled_run

  unfoldable pub initial_disabled_solve : Exec (Sim F) (Unit {0})
  initial_disabled_solve = do
    ensure (λ s. is_disabled_run s.state)
    command (set_mode_yearly 0 0)
    command solve_plain
    set_state disabled_solve

  unfoldable pub just_solve : Exec (Sim F) (Unit {0})
  just_solve = do
    ensure (λ s. not (is_unloaded s.state) && not (is_disabled_run s.state))
    command solve_number_one

  unfoldable pub solve : ℕ → ℕ → Exec (Sim F) (Unit {0})
  solve hour second = do
    ensure (λ s. not (is_unloaded s.state) && not (is_disabled_run s.state))
    command (set_mode_yearly hour second)
    command solve_number_one
    set_state solve_at_time

  unfoldable pub ready_to_load_power : Bool → Exec (Sim F) (Unit {0})
  ready_to_load_power static =
      ensure
        (λ s. elim static [ true ↦ not (is_unloaded s.state) | false ↦ is_solve_at_time s.state ])
