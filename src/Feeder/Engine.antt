-- ===== src/Feeder/Engine.antt =====
-- OpenDSS, as LocalFeeder/FeederSimulator.py and LocalFeeder/dss_functions.py call it.
-- The engine is not part of the repository. All that the program sends to it is kept as a history,
-- newest first, and what the engine answers is some function of that history: a parameter.
use sgidal_example.Prelude.{ℕ, String, Bool, List}
use sgidal_example.Floats.{Floats, Complex}

-- The element classes that the program switches on and off together.
pub data ElementClass : Type 0 where
  load vsource isource generator pvsystem capacitor storage regcontrol : ElementClass

-- `dss.Text.Command(…)`, by what the text says; OpenDSS reads it case-insensitively.
pub data Command : Type 0 where
  -- "clear", "redirect …", "Set stepsize=… Number=1"
  clear : Command
  redirect : String → Command
  set_stepsize : Command
  -- "Batchedit Load..* enabled=yes" and its like
  batchedit : ElementClass → Bool → Command
  -- "batchedit transformer..* wdg=2 tap=…"
  batchedit_tap : ℕ → Command
  -- "CalcVoltageBases", "set maxiterations=20"
  calc_voltage_bases set_maxiterations : Command
  -- "solve mode=snapshot number=1", "solve number=1", "solve"
  solve_snapshot solve_number_one solve_plain : Command
  -- "set mode=yearly loadmult=1 number=1 hour=… sec=… stepsize=0"
  set_mode_yearly : ℕ → ℕ → Command
  -- "New InvControl.… PVsystemList=[…]"
  new_inverter : String → String → Command
  -- "New XYcurve.… npts=… Yarray=(…) Xarray=(…)"
  new_xy_curve : String → ℕ → String → String → Command
  -- "element.property=value"
  set_property : String → String → String → Command

-- The calls that change the engine. `First` and `Next` are recorded for the PV systems that
-- FeederSimulator.py walks over; the walks of dss_functions.py are read as lists and are not recorded.
pub data Call : Type 0 where
  text : Command → Call
  set_active_element set_active_bus : String → Call
  open_terminal : ℕ → ℕ → Call
  legacy_models : Bool → Call
  -- `dss.Solution.Solve()`
  solution_solve : Call
  set_active_class : String → Call
  -- `dss.PVsystems.First()` and `Next()`, which make a PV system the active one
  first_pv next_pv : Call

abbrev pub History : Type 0
History = List Call

-- An entry of a sparse matrix in coordinate form: row, column, value.
pub record Entry (A : Type 0) : Type 0 where
  pub row : ℕ
  pub col : ℕ
  pub value : A

pub record Coo (A : Type 0) : Type 0 where
  pub entries : List (Entry A)
  pub shape : ℕ × ℕ

-- What `dss.PVsystems` answers for one PV system, as `First` and `Next` walk through them.
pub record Pv (F : Floats) : Type 0 where
  pub name : String
  pub pmpp : F.Float
  pub irradiance : F.Float

-- What OpenDSS answers for one load, PV system, generator or capacitor while it is the active element.
pub record Element (F : Floats) : Type 0 where
  pub name : String
  -- `dss.CktElement.Name()`, with the class in front
  pub full_name : String
  pub kw : F.Float
  pub kvar : F.Float
  pub pf : F.Float
  pub num_phases : ℕ
  pub bus_names : List String
  -- real and imaginary parts in turn
  pub powers : List F.Float

pub record Engine (F : Floats) : Type 0 where
  pub text_result : History → String
  pub y_node_order : History → List String
  pub y_matrix : History → Coo (Complex F)
  -- real and imaginary parts in turn
  pub y_node_v_array : History → List F.Float
  pub vsources : History → List String
  pub lines : History → List String
  pub transformers : History → List String
  pub bus_names : History → List String
  pub num_phases : History → ℕ
  pub element_name : History → String
  pub property_names : History → List String
  pub kv_base : History → F.Float
  pub pvsystems : History → List (Pv F)
  -- what `IrradianceNow` answers where there is no PV system
  pub no_irradiance : F.Float
  pub loads : History → List (Element F)
  pub pv_elements : History → List (Element F)
  pub generators : History → List (Element F)
  pub capacitors : History → List (Element F)
