-- ===== src/Feeder/Power/Elements.antt =====
-- LocalFeeder/dss_functions.py: what is read of each load, PV system, generator and capacitor.
-- What OpenDSS answers for the elements of a class, while `First` and `Next` walk through them, is
-- one answer of the engine.
use sgidal_example.Prelude.{
  ◌==◌, if◌then◌else◌, length, get_elem?, take, or_raise, map_result, Result, split_dot, upper,
  value_error, index_error, ok, raise, zero_division_error, ℕ, ◌*◌, String, append, List, [], ◌∷◌,
  ◌++◌, str_eq,
}
use sgidal_example.Prelude
use sgidal_example.Prelude.Exec.{Exec, gets, lift, collect, ◌>>=◌, ◌>>◌}
use sgidal_example.Floats.{Floats}
use sgidal_example.Feeder.Engine.{Engine, Element, History, set_active_class, set_active_element}
use sgidal_example.Feeder.Sim.{Sim, send}

-- The `datum` of an element. The keys that nothing reads are left out: the voltages and the connection
-- of a load, the rating of a PV system, the power factors and the names of buses with names of elements.
pub record Datum (F : Floats) : Type 0 where
  pub name : String
  pub full_name : String
  pub kw : F.Float
  pub kvar : F.Float
  pub bus : String
  pub phases : List String
  pub num_phases : ℕ
  pub power : List F.Float
  pub node_names : List String

-- `s.split(".")[0]` and `s.split(".")[1:]`
abbrev pub head_of : List String → String
head_of [] = ""
head_of (x ∷ xs) = x

abbrev pub tail_of : List String → List String
tail_of [] = []
tail_of (x ∷ xs) = xs

-- The comprehension over the phases that are not "0".
abbrev pub phase_nodes : String → List String → List String
phase_nodes core_name [] = []
phase_nodes core_name (phase ∷ rest) =
    let nodes = phase_nodes core_name rest in
    if str_eq phase "0" then nodes else append core_name (append "." phase) ∷ nodes

-- The nodes of one bus: all three where it names none.
unfoldable pub bus_nodes : String → List String
bus_nodes bus =
    let sub_bus = split_dot bus in
    let core_name = upper (head_of sub_bus) in
    if length (tail_of sub_bus) == 0
    then append core_name ".1" ∷ append core_name ".2" ∷ append core_name ".3" ∷ []
    else phase_nodes core_name (tail_of sub_bus)

unfoldable pub get_all_nodes : List String → List String
get_all_nodes [] = []
get_all_nodes (bus ∷ buses) = bus_nodes bus ++ get_all_nodes buses

-- `buses[0].split(".")`
unfoldable pub first_bus_parts : List String → Result (List String)
first_bus_parts buses =
    Prelude.◌>>=◌ (or_raise (get_elem? buses 0) index_error) (λ bus. ok (split_dot bus))

-- The reactive power of a load, by its power factor.
unfoldable pub load_kvar : (F : Floats) → F.Float → F.Float → Result F.Float
load_kvar F kw pf =
    let rest = F.minus (F.from_ℕ 1) (F.times pf pf) in
    if F.eq pf (F.from_ℕ 0)
    then raise zero_division_error
    else if F.lt rest (F.from_ℕ 0)
    then raise value_error
    else ok (F.times (F.over kw pf) (F.sqrt rest))

module _ {F : Floats} where
  -- The body of the loop of `get_loads`, after the load is made active.
  unfoldable pub load_datum : Element F → Result (Datum F)
  load_datum el = Prelude.◌>>=◌ (first_bus_parts el.bus_names) (λ bus.
      Prelude.◌>>=◌ (load_kvar F el.kw el.pf) (λ kvar. ok (record {
        name = el.name;
        full_name = el.full_name;
        kw = el.kw;
        kvar = kvar;
        bus = head_of bus;
        phases = if el.num_phases == 0 then "1" ∷ "2" ∷ "3" ∷ [] else tail_of bus;
        num_phases = if el.num_phases == 0 then 3 else el.num_phases;
        power = el.powers;
        node_names = get_all_nodes el.bus_names;
      })))

  -- The body of the loop of `get_pvsystems`, and of `get_generators` where the bus is one text.
  unfoldable pub source_datum : Element F → Result (Datum F)
  source_datum el = Prelude.◌>>=◌ (first_bus_parts el.bus_names) (λ bus. ok (record {
    name = el.name;
    full_name = el.full_name;
    kw = el.kw;
    kvar = el.kvar;
    bus = head_of bus;
    phases = tail_of bus;
    num_phases = el.num_phases;
    power = el.powers;
    node_names = get_all_nodes el.bus_names;
  }))

  -- The body of the loop of `get_capacitors`: its name is that of the active element, and its powers
  -- are those of its first terminal.
  unfoldable pub capacitor_datum : Element F → Result (Datum F)
  capacitor_datum el = Prelude.◌>>=◌ (first_bus_parts el.bus_names) (λ bus. ok (record {
    name = el.full_name;
    full_name = el.full_name;
    kw = F.from_ℕ 0;
    kvar = el.kvar;
    bus = head_of bus;
    phases = if length (tail_of bus) == 0 then "1" ∷ "2" ∷ "3" ∷ [] else tail_of bus;
    num_phases = el.num_phases;
    power = take (2 * el.num_phases) el.powers;
    node_names = get_all_nodes el.bus_names;
  }))

module _ {F : Floats} (e : Engine F) where
  unfoldable pub get_loads : Exec (Sim F) (List (Datum F))
  get_loads = do
    loads ← gets (λ s. e.loads s.history)
    send (set_active_class "Load")
    collect loads
        (λ el. do send (set_active_element (append "Load." el.name)); lift (load_datum el))

  unfoldable pub get_pvsystems : History → Result (List (Datum F))
  get_pvsystems h = map_result source_datum (e.pv_elements h)

  unfoldable pub get_generators : Exec (Sim F) (List (Datum F))
  get_generators = do
    gens ← gets (λ s. e.generators s.history)
    send (set_active_class "Generator")
    lift (map_result source_datum gens)

  unfoldable pub get_capacitors : Exec (Sim F) (List (Datum F))
  get_capacitors = do
    caps ← gets (λ s. e.capacitors s.history)
    send (set_active_class "Capacitor")
    lift (map_result capacitor_datum caps)
