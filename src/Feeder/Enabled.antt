-- ===== src/Feeder/Enabled.antt =====
-- What the simulator leaves switched on: the last `batchedit … enabled=…` of each element class.
use sgidal_example.Prelude.{
  ◌≡◌, Bool, true, false, Option, none, some, [], ◌∷◌, arith, ok, if◌then◌else◌,
}
use sgidal_example.Floats.{Floats, Complex}
use sgidal_example.Feeder.Engine.{
  Engine, History, Coo, ElementClass, load, vsource, isource, generator, pvsystem, capacitor,
  storage, regcontrol, batchedit, text,
}
use sgidal_example.Feeder.Sim.{Sim, solve_at_time, is_unloaded}
use sgidal_example.Feeder.Run.{reenable, snapshot_run, disable_elements}
use sgidal_example.Feeder.Matrix.{get_load_y_matrix}

abbrev same_class : ElementClass → ElementClass → Bool
same_class load load = true
same_class vsource vsource = true
same_class isource isource = true
same_class generator generator = true
same_class pvsystem pvsystem = true
same_class capacitor capacitor = true
same_class storage storage = true
same_class regcontrol regcontrol = true
same_class _ _ = false

-- The last setting of the class in the history; `none` where there was none.
abbrev pub enabled : ElementClass → History → Option Bool
enabled c [] = none
enabled c (text (batchedit d b) ∷ h) = if same_class d c then some b else enabled c h
enabled c (_ ∷ h) = enabled c h

-- The classes that `reenable` switches on, and `storage`, which it switches off.
abbrev pub AllReenabled : History → Type 0
AllReenabled h =
    (enabled load h ≡ some true)
    × (enabled vsource h ≡ some true)
    × (enabled isource h ≡ some true)
    × (enabled generator h ≡ some true)
    × (enabled pvsystem h ≡ some true)
    × (enabled capacitor h ≡ some true)
    × (enabled storage h ≡ some false)

module _ {F : Floats} where
  -- A snapshot run of a loaded feeder switches loads, sources, generators, PV systems and capacitors
  -- on and storage off, whatever was sent before, and leaves the regulator controls as they were.
  pub snapshot_run-enabled :
      (s : Sim F)
      → is_unloaded s.state ≡ false
      → let (r, s') = snapshot_run s in
        (r ≡ ok tt)
        × AllReenabled s'.history
        × (enabled regcontrol s'.history ≡ enabled regcontrol s.history)
  unfolding snapshot_run
  snapshot_run-enabled s h = ground arith

module _ {F : Floats} (e : Engine F) where
  -- When `get_load_y_matrix` returns a matrix, the simulator is solved at a time again, loads, sources,
  -- generators, PV systems and capacitors are on and storage is off, and the regulator controls, which
  -- it switched off, are still off.
  pub load_y_matrix-enabled :
      (s : Sim F) (m : Coo (Complex F))
      → (get_load_y_matrix e s).0 ≡ ok m
      → let s' = (get_load_y_matrix e s).1 in
        (s'.state ≡ solve_at_time)
        × AllReenabled s'.history
        × (enabled regcontrol s'.history ≡ some false)
  unfolding get_load_y_matrix disable_elements reenable
  load_y_matrix-enabled s m h = ground arith
