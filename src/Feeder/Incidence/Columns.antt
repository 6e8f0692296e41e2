-- ===== src/Feeder/Incidence/Columns.antt =====
-- The four columns of the incidence list, as a list of rows.
use sgidal_example.Prelude.{
  String, append, upper, ◌≡◌, refl, sym, ap, ◌∙◌, false, not, Option, none, some, List, [], ◌∷◌,
  ◌++◌, map, map-append, arith, ok,
}
use mathlib.Core.List.{append-nil, append_assoc}
use sgidal_example.Prelude.Exec.{Exec, gets, ensure, bind-ok, ◌>>=◌}
use sgidal_example.Floats.{Floats}
use sgidal_example.Feeder.Engine.{Engine, History, set_active_element}
use sgidal_example.Feeder.Load.{add_all}
use sgidal_example.Feeder.Sim.{Sim, is_unloaded}
use sgidal_example.Feeder.Incidence.{
  IncidenceList, before_dot, two, add_incidence, add_incidences, get_incidences, terminals,
}

-- One element that joins two buses.
pub record Row : Type 0 where
  pub from_bus : String
  pub to_bus : String
  pub element : String
  pub kind : String

-- The rows after those of a list, column by column.
abbrev pub extend : IncidenceList → List Row → IncidenceList
extend l rs = record {
  from_equipment = l.from_equipment ++ map (λ r. r.from_bus) rs;
  to_equipment = l.to_equipment ++ map (λ r. r.to_bus) rs;
  ids = l.ids ++ map (λ r. r.element) rs;
  equipment_types = l.equipment_types ++ map (λ r. r.kind) rs;
}

abbrev pub nothing : IncidenceList
nothing = record { from_equipment = []; to_equipment = []; ids = []; equipment_types = [] }

-- The ends of an element with these names of buses: two names as they are; of any other number the
-- different buses, where these are two.
abbrev pub exactly_two : List String → Option (String × String)
exactly_two (a ∷ b ∷ []) = some (a, b)
exactly_two _ = none

abbrev pub ends : List String → Option (String × String)
ends (a ∷ b ∷ []) = some (a, b)
ends names = exactly_two (add_all (map before_dot names) [])

-- The row of an element, where it has two ends: the buses in capitals, first the one it starts from.
abbrev pub row_of : String → String → Option (String × String) → List Row
row_of kind element none = []
row_of kind element (some (a, b)) =
    record { from_bus = upper a; to_bus = upper b; element = element; kind = kind } ∷ []

abbrev pub activate : String → String → History → History
activate kind element h = set_active_element (append kind (append "." element)) ∷ h

-- What is sent for the elements of a kind.
abbrev pub activated : String → List String → History → History
activated kind [] h = h
activated kind (x ∷ xs) h = activated kind xs (activate kind x h)

-- The rows of the elements of a kind, each from the buses that OpenDSS names while it is active.
abbrev pub rows_of : {F : Floats} → Engine F → String → List String → History → List Row
rows_of e kind [] h = []
rows_of e kind (x ∷ xs) h =
    row_of kind x (ends (e.bus_names (activate kind x h))) ++ rows_of e kind xs (activate kind x h)

terminals-ends : (names : List String) → terminals names ≡ ends names
unfolding terminals
terminals-ends [] = refl
terminals-ends (a ∷ []) = refl
terminals-ends (a ∷ b ∷ []) = refl
terminals-ends (a ∷ b ∷ c ∷ names) = pairs (add_all (map before_dot (a ∷ b ∷ c ∷ names)) [])
  where
    pairs : (xs : List String) → two xs ≡ exactly_two xs
    pairs [] = refl
    pairs (x ∷ []) = refl
    pairs (x ∷ y ∷ []) = refl
    pairs (x ∷ y ∷ z ∷ xs) = refl

extend-append :
    (l : IncidenceList) (rs more : List Row) → extend (extend l rs) more ≡ extend l (rs ++ more)
extend-append l rs more =
    rw
      (
        map-append (λ (r : Row). r.from_bus) rs more,
        map-append (λ (r : Row). r.to_bus) rs more,
        map-append (λ (r : Row). r.element) rs more,
        map-append (λ (r : Row). r.kind) rs more,
        append_assoc l.from_equipment (map (λ r. r.from_bus) rs) (map (λ r. r.from_bus) more),
        append_assoc l.to_equipment (map (λ r. r.to_bus) rs) (map (λ r. r.to_bus) more),
        append_assoc l.ids (map (λ r. r.element) rs) (map (λ r. r.element) more),
        append_assoc l.equipment_types (map (λ r. r.kind) rs) (map (λ r. r.kind) more),
      )
      refl

extend-nil : (l : IncidenceList) → extend l [] ≡ l
extend-nil l =
    rw
      (
        append-nil l.from_equipment,
        append-nil l.to_equipment,
        append-nil l.ids,
        append-nil l.equipment_types,
      )
      refl

add_incidence-extend :
    (kind element : String) (o : Option (String × String)) (l : IncidenceList)
    → add_incidence kind element o l ≡ extend l (row_of kind element o)
unfolding add_incidence
add_incidence-extend kind element none l = sym (extend-nil l)
add_incidence-extend kind element (some (a, b)) l = refl

module _ {F : Floats} (e : Engine F) (kind : String) where
  add_incidences-rows :
      (elements : List String) (l : IncidenceList) (s : Sim F)
      → add_incidences e kind elements l s ≡ (
        ok (extend l (rows_of e kind elements s.history)),
        record s { history = activated kind elements s.history },
      )
  unfolding add_incidences
  add_incidences-rows [] l s = ap (λ (m : IncidenceList). (ok m, s)) (sym (extend-nil l))
  add_incidences-rows (x ∷ elements) l s =
      let next = activate kind x s.history in
      let here = row_of kind x (ends (e.bus_names next)) in
      let added : add_incidence kind x (terminals (e.bus_names next)) l ≡ extend l here =
        ap (λ o. add_incidence kind x o l) (terminals-ends (e.bus_names next))
        ∙ add_incidence-extend kind x (ends (e.bus_names next)) l in
      ap (λ m. add_incidences e kind elements m (record s { history = next })) added
      ∙ add_incidences-rows elements (extend l here) (record s { history = next })
      ∙ ap (λ (m : IncidenceList). (ok m, record s { history = activated kind elements next }))
          (extend-append l here (rows_of e kind elements next))

module _ {F : Floats} (e : Engine F) (s : Sim F) where
  -- Of a loaded feeder `get_incidences` returns, column by column, exactly one row for each line and
  -- then each transformer that has two ends when it is made active: its buses in capitals, the first
  -- one in `from_equipment`, its name and its kind. Elements with other than two ends have no row.
  -- Nothing but the choice of the active element is sent, and the object stays as it is.
  pub get_incidences-rows :
      is_unloaded s.state ≡ false
      → let lines = e.lines s.history in
        let between = activated "Line" lines s.history in
        let transformers = e.transformers between in
        get_incidences e s ≡ (
          ok (
              extend nothing
                (rows_of e "Line" lines s.history ++ rows_of e "Transformer" transformers between)),
          record s { history = activated "Transformer" transformers between },
        )
  unfolding get_incidences
  get_incidences-rows h =
      let lines = e.lines s.history in
      let between = activated "Line" lines s.history in
      let transformers = e.transformers between in
      let first = extend nothing (rows_of e "Line" lines s.history) in
      let later : IncidenceList → Exec (Sim F) IncidenceList = λ (l : IncidenceList).
        gets (λ u. e.transformers u.history) >>= (λ ts. add_incidences e "Transformer" ts l) in
      let rest : Exec (Sim F) IncidenceList =
        gets (λ u. e.lines u.history) >>= (λ ls. add_incidences e "Line" ls nothing >>= later) in
      let loaded : Exec (Sim F) (Unit {0}) = ensure (λ u. not (is_unloaded u.state)) in
      let passes : loaded s ≡ (ok tt, s) = ground (arith, h) in
      bind-ok loaded (λ _. rest) passes
      ∙ bind-ok (add_incidences e "Line" lines nothing) later
          (add_incidences-rows e "Line" lines nothing s)
      ∙ add_incidences-rows e "Transformer" transformers first (record s { history = between })
      ∙ ap
          (λ (m : IncidenceList).
            (ok m, record s { history = activated "Transformer" transformers between }))
          (extend-append nothing (rows_of e "Line" lines s.history)
            (rows_of e "Transformer" transformers between))
