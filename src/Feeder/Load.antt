-- ===== src/Feeder/Load.antt =====
-- `load_feeder` and what it calls, and `change_obj`.
use sgidal_example.Prelude.{
  ℕ, zero, suc, String, append, str_eq, true, not, List, [], ◌∷◌, ◌++◌, map, none, some, Result, ok,
  raise, or_raise, value_error, index_error, Dict, insert, mem, add, decimal, upper, lower,
  get_elem?, if◌then◌else◌,
}
use sgidal_example.Prelude
use sgidal_example.Prelude.Exec.{
  Exec, pure, gets, asks, modify, ensure, for_each, collect, ◌>>=◌, ◌>>◌,
}
use sgidal_example.Floats.{Floats}
use sgidal_example.Feeder.Engine.{
  Engine, Pv, clear, redirect, batchedit_tap, set_property, set_active_element, set_active_bus,
  open_terminal, legacy_models,
}
use sgidal_example.Feeder.Sim.{Sim, loaded, is_unloaded, send, command, set_state}

-- `xs.index(v)`: the first position, or `ValueError`.
unfoldable pub list_index : String → List String → Result ℕ
list_index v [] = raise value_error
list_index v (x ∷ xs) =
    let rest = Prelude.◌>>=◌ (list_index v xs) (λ i. ok (suc i)) in
    if str_eq x v then ok 0 else rest

-- `range(start, start + n)`
unfoldable pub range_from : ℕ → ℕ → List ℕ
range_from start zero = []
range_from start (suc n) = start ∷ range_from (suc start) n

-- `{ii: names.index(ii) for ii in names}`
name_indexes : List String → List String → Dict ℕ → Result (Dict ℕ)
name_indexes [] names d = ok d
name_indexes (ii ∷ rest) names d =
    Prelude.◌>>=◌ (list_index ii names) (λ i. name_indexes rest names (insert ii i d))

unfoldable pub add_all : List String → List String → List String
add_all [] s = s
add_all (x ∷ xs) s = add_all xs (add x s)

module _ {F : Floats} (e : Engine F) where
  -- `dss.CktElement.BusNames()[0]`
  abbrev first_bus : Exec (Sim F) String
  first_bus = asks (λ s. or_raise (get_elem? (e.bus_names s.history) 0) index_error)

  unfoldable pub setup_vbase : Exec (Sim F) (Unit {0})
  setup_vbase = do
    names ← gets (λ s. s.all_node_names)
    vbase ← collect names (λ node. do
      send (set_active_bus node)
      gets (λ s. F.times (e.kv_base s.history) (F.from_ℕ 1000)))
    modify (λ s. record s { vbase_allnode = vbase })

  unfoldable pub open_line : String → Exec (Sim F) (Unit {0})
  open_line line_name = do send (set_active_element line_name); send (open_terminal 2 0)

  -- The body of `for Source in dss.Vsources.AllNames()`.
  unfoldable pub find_source : String → Exec (Sim F) (Unit {0})
  unfolding range_from
  find_source source = do
    send (set_active_element (append "Vsource." source))
    bus ← first_bus
    phases ← gets (λ s. e.num_phases s.history)
    for_each (range_from 1 phases) (λ phase. do
      i ← asks (λ s.
          list_index (append (upper (upper bus)) (append "." (decimal phase))) s.all_node_names)
      modify (λ s. record s { source_indexes = s.source_indexes ++ i ∷ [] }))

  -- `_nodes_index` and `_Vbase_allnode_dict`, which nothing reads, are left out.
  unfoldable pub load_feeder : Exec (Sim F) (Unit {0})
  unfolding name_indexes add_all
  load_feeder = do
    send (legacy_models true)
    command clear
    file ← gets (λ s. s.feeder_file)
    command (redirect file)
    asks (λ s. if str_eq (e.text_result s.history) "" then ok tt else raise value_error)
    modify (λ s. record s { all_node_names = e.y_node_order s.history })
    index ← asks (λ s. name_indexes s.all_node_names s.all_node_names [])
    modify (λ s. record s { name_index_dict = index; source_indexes = [] })
    sources ← gets (λ s. e.vsources s.history)
    for_each sources find_source
    setup_vbase
    pvs ← gets (λ s. map (λ (p : Pv F). append "PVSystem." p.name) (e.pvsystems s.history))
    modify (λ s. record s { registry = record (s.registry) { pvsystems = add_all pvs [] } })
    tap ← gets (λ s. s.tap_setting)
    elim tap [ none ↦ pure tt | some t ↦ command (batchedit_tap t) ]
    lines ← gets (λ s. s.open_lines)
    elim lines [ none ↦ pure tt | some ls ↦ for_each ls open_line ]
    set_state loaded

-- The class `Command` of the data types: an object's property and its new value.
pub record Change : Type 0 where
  pub obj_name : String
  pub obj_property : String
  pub val : String

module _ {F : Floats} (e : Engine F) where
  -- The body of the loop of `change_obj`.
  unfoldable pub change_one : Change → Exec (Sim F) (Unit {0})
  change_one entry = do
    send (set_active_element entry.obj_name)
    ensure (λ s. mem (lower entry.obj_property) (map lower (e.property_names s.history)))
    command (set_property entry.obj_name entry.obj_property entry.val)

  unfoldable pub change_obj : List Change → Exec (Sim F) (Unit {0})
  change_obj change_commands = do
    ensure (λ s. not (is_unloaded s.state))
    for_each change_commands change_one
