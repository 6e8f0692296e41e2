-- ===== src/Feeder/Power.antt =====
-- The power getters of the simulator: `get_PQs_load`, `get_PQs_pv`, `get_PQs_gen`, `get_PQs_cap`.
pub mod Elements
pub mod Known
mod Tests
use sgidal_example.Prelude.{
  ◌==◌, if◌then◌else◌, get_elem?, or_raise, Result, mem, assertion_error, index_error, ok, raise,
  zero_division_error, ℕ, suc, ◌+◌, ◌*◌, String, append, Bool, Option, none, some, List, [], ◌∷◌,
  ◌++◌,
}
use sgidal_example.Prelude
use sgidal_example.Prelude.Exec.{
  Exec, pure, throw, lift, gets, asks, ensure, for_each, collect, ◌>>=◌, ◌>>◌,
}
use sgidal_example.Floats.{Floats, Complex}
use sgidal_example.Feeder.Engine.{Engine, set_active_element}
use sgidal_example.Feeder.Sim.{Sim, send}
use sgidal_example.Feeder.Run.{ready_to_load_power}
use sgidal_example.Feeder.Power.Elements.{
  Datum, get_loads, get_pvsystems, get_generators, get_capacitors,
}

-- One place of the array: its value, its `equipment_ids` and its `ids`.
pub record Pq (F : Floats) : Type 0 where
  pub value : Complex F
  pub equipment_id : String
  pub id : String

-- Where the two parts of a node's power come from.
pub data Source : Type 0 where
  -- `complex(power[2 * i], power[2 * i + 1])`, `complex(0, power[2 * i + 1])`
  both_parts imaginary_part : Source

-- `z / n`
unfoldable pub divide : (F : Floats) → Complex F → ℕ → Result (Complex F)
divide F z n =
    if n == 0
    then raise zero_division_error
    else ok (F.over z.0 (F.from_ℕ n), F.over z.1 (F.from_ℕ n))

unfoldable pub part : (F : Floats) → Source → ℕ → List F.Float → Result (Complex F)
part F both_parts i power =
    Prelude.◌>>=◌ (or_raise (get_elem? power (2 * i)) index_error)
      (λ re. Prelude.◌>>=◌ (or_raise (get_elem? power (2 * i + 1)) index_error) (λ im. ok (re, im)))
part F imaginary_part i power =
    Prelude.◌>>=◌ (or_raise (get_elem? power (2 * i + 1)) index_error) (λ im. ok (F.from_ℕ 0, im))

-- `-1 * x`
abbrev pub negative : (F : Floats) → F.Float → F.Float
negative F x = F.times (F.neg (F.from_ℕ 1)) x

module _ {F : Floats} where
  -- The body of the inner loop: `rated` is the power of the static case, over all phases.
  unfoldable pub node_power :
      List String → Source → Bool → Complex F → Datum F → ℕ → String → Result (Pq F)
  node_power all_node_names source static rated d i node_name =
      if mem node_name all_node_names
      then (Prelude.◌>>=◌ (if static then divide F rated d.num_phases else part F source i d.power)
          (λ z. ok (record { value = z; equipment_id = d.full_name; id = node_name })))
      else raise assertion_error

  -- `for i, node_name in enumerate(…["node_names"])`
  unfoldable pub node_powers :
      List String → Source → Bool → Complex F → Datum F → ℕ → List String → Result (List (Pq F))
  node_powers all_node_names source static rated d i [] = ok []
  node_powers all_node_names source static rated d i (node_name ∷ rest) =
      Prelude.◌>>=◌ (node_power all_node_names source static rated d i node_name) (λ z.
        Prelude.◌>>=◌ (node_powers all_node_names source static rated d (suc i) rest)
          (λ zs. ok (z ∷ zs)))

  -- The outer loop, with the call that makes the element active: capacitors have none.
  unfoldable pub element_powers :
      (Datum F → Option String)
      → Source
      → (Datum F → Complex F)
      → Bool
      → List (Datum F)
      → Exec (Sim F) (List (Pq F))
  element_powers active source rated static [] = pure []
  element_powers active source rated static (d ∷ rest) =
      let others = element_powers active source rated static rest in
      do
        elim (active d) as (λ _. Exec (Sim F) (Unit {0})) [
          | none ↦ pure tt
          | some name ↦ send (set_active_element name)
        ]
        zs ← asks (λ s. node_powers s.all_node_names source static (rated d) d 0 d.node_names)
        more ← others
        pure (zs ++ more)

-- `xr.DataArray.sortby(ids)` is xarray's: a parameter.
module _ {F : Floats} (e : Engine F) (sortby_ids : List (Pq F) → List (Pq F)) where
  unfoldable pub get_pqs_load : Bool → Exec (Sim F) (List (Pq F))
  get_pqs_load static = do
    ready_to_load_power static
    loads ← get_loads e
    pqs ←
        element_powers (λ d. some (append "Load." d.name)) both_parts (λ d. (d.kw, d.kvar)) static
          loads
    pure (sortby_ids pqs)

  unfoldable pub get_pqs_pv : Bool → Exec (Sim F) (List (Pq F))
  get_pqs_pv static = do
    ready_to_load_power static
    pvs ← asks (λ s. get_pvsystems e s.history)
    pqs ←
        element_powers (λ d. some (append "PVSystem." d.name)) both_parts
          (λ d. (negative F d.kw, negative F d.kvar)) static pvs
    pure (sortby_ids pqs)

  unfoldable pub get_pqs_gen : Bool → Exec (Sim F) (List (Pq F))
  get_pqs_gen static = do
    ready_to_load_power static
    gens ← get_generators e
    pqs ←
        element_powers (λ d. some (append "Generator." d.name)) both_parts
          (λ d. (negative F d.kw, negative F d.kvar)) static gens
    pure (sortby_ids pqs)

  unfoldable pub get_pqs_cap : Bool → Exec (Sim F) (List (Pq F))
  get_pqs_cap static = do
    ready_to_load_power static
    caps ← get_capacitors e
    pqs ←
        element_powers (λ d. none) imaginary_part (λ d. (F.from_ℕ 0, negative F d.kvar)) static caps
    pure (sortby_ids pqs)
