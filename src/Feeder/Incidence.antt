-- ===== src/Feeder/Incidence.antt =====
-- `get_incidences`: which two buses each line and transformer joins.
pub mod Columns
use sgidal_example.Prelude.{
  String, append, not, Option, none, some, List, [], ◌∷◌, ◌++◌, map, upper, split_dot,
}
use sgidal_example.Prelude.Exec.{Exec, pure, gets, ensure, ◌>>=◌, ◌>>◌}
use sgidal_example.Floats.{Floats}
use sgidal_example.Feeder.Engine.{Engine, set_active_element}
use sgidal_example.Feeder.Sim.{Sim, is_unloaded, send}
use sgidal_example.Feeder.Load.{add_all}

pub record IncidenceList : Type 0 where
  pub from_equipment : List String
  pub to_equipment : List String
  pub ids : List String
  pub equipment_types : List String

-- `x.split(".")[0]`
abbrev pub before_dot : String → String
before_dot x = elim (split_dot x) [ [] ↦ x | y ∷ _ ↦ y ]

abbrev pub two : List String → Option (String × String)
two (a ∷ b ∷ []) = some (a, b)
two _ = none

-- The two buses of an element: the two names as they are, or the two different buses among other
-- than two names; `none` where the element is skipped.
unfoldable pub terminals : List String → Option (String × String)
unfolding add_all
terminals names = elim (two names) [
  | some ends ↦ some ends
  | none ↦ two (add_all (map before_dot names) [])
]

-- One round of either loop.
unfoldable pub add_incidence :
    String → String → Option (String × String) → IncidenceList → IncidenceList
add_incidence kind element none l = l
add_incidence kind element (some (from_bus, to_bus)) l = record {
  from_equipment = l.from_equipment ++ upper from_bus ∷ [];
  to_equipment = l.to_equipment ++ upper to_bus ∷ [];
  ids = l.ids ++ element ∷ [];
  equipment_types = l.equipment_types ++ kind ∷ [];
}

module _ {F : Floats} (e : Engine F) where
  unfoldable pub add_incidences : String → List String → IncidenceList → Exec (Sim F) IncidenceList
  add_incidences kind [] l = pure l
  add_incidences kind (element ∷ rest) l = do
    send (set_active_element (append kind (append "." element)))
    names ← gets (λ s. e.bus_names s.history)
    add_incidences kind rest (add_incidence kind element (terminals names) l)

  unfoldable pub get_incidences : Exec (Sim F) IncidenceList
  unfolding add_incidences
  get_incidences = do
    ensure (λ s. not (is_unloaded s.state))
    lines ← gets (λ s. e.lines s.history)
    l ←
        add_incidences "Line" lines
          (record { from_equipment = []; to_equipment = []; ids = []; equipment_types = [] })
    transformers ← gets (λ s. e.transformers s.history)
    add_incidences "Transformer" transformers l
