-- ===== src/Samples.antt =====
-- Sample data for the tests: whole numbers in place of floats, and a small feeder.
use sgidal_example.Prelude.{
  ℕ, ◌+◌, ◌-◌, ◌*◌, ◌/◌, String, none, List, [], ◌∷◌, ltb, leb, ◌==◌, decimal,
}
use sgidal_example.Floats.{Floats}
use sgidal_example.Feeder.Engine.{Engine, Pv}
use sgidal_example.Feeder.Sim.{Sim, loaded}
use sgidal_example.Indexing.{index_map}

abbrev pub whole : Floats
whole = record {
  Float = ℕ;
  plus = λ a b. a + b;
  minus = λ a b. a - b;
  times = λ a b. a * b;
  over = λ a b. a / b;
  neg = λ a. 0 - a;
  sqrt = λ a. a;
  abs = λ a. a;
  show = decimal;
  from_ℕ = λ n. n;
  literal = λ n d. n / d;
  lt = ltb;
  le = leb;
  eq = λ a b. a == b;
}

abbrev pub node_names : List String
node_names = "A.1" ∷ "B.1" ∷ "C.1" ∷ []

abbrev pub pv1 : Pv whole
pv1 = record { name = "pv1"; pmpp = 10; irradiance = 2 }

-- An engine that always gives the same answers; its nodes are in the order `order`.
abbrev pub engine_with : List String → Engine whole
engine_with order = record {
  text_result = λ h. "";
  y_node_order = λ h. order;
  y_matrix =
      λ h. record { entries = record { row = 0; col = 1; value = (7, 8) } ∷ []; shape = (3, 3) };
  y_node_v_array = λ h. 11 ∷ 12 ∷ 21 ∷ 22 ∷ 31 ∷ 32 ∷ [];
  vsources = λ h. "source" ∷ [];
  lines = λ h. "l1" ∷ "l2" ∷ [];
  transformers = λ h. "t1" ∷ [];
  bus_names = λ h. "a.1" ∷ "b.1" ∷ [];
  num_phases = λ h. 1;
  element_name = λ h. "element";
  property_names = λ h. "kvar" ∷ [];
  kv_base = λ h. 2;
  pvsystems = λ h. pv1 ∷ [];
  no_irradiance = 0;
  loads = λ h. [];
  pv_elements = λ h. [];
  generators = λ h. [];
  capacitors = λ h. [];
}

abbrev pub engine : Engine whole
engine = engine_with node_names

abbrev pub feeder : Sim whole
feeder = record {
  state = loaded;
  history = [];
  all_node_names = node_names;
  name_index_dict = index_map node_names;
  source_indexes = 0 ∷ [];
  vbase_allnode = 2000 ∷ 2000 ∷ 2000 ∷ [];
  registry = record {
    pvsystems = "PVSystem.pv1" ∷ "PVSystem.pv2" ∷ [];
    inverters = [];
    inverter_to_pvsystems = [];
    pvsystem_to_inverter = [];
    inverter_counter = 0;
    xycurve_counter = 0;
  };
  tap_setting = none;
  open_lines = none;
  feeder_file = "opendss/master.dss";
}
