-- ===== src/Feeder/Power/Known.antt =====
-- When the power getters return, and what their arrays hold.
use sgidal_example.Prelude.{
  Option-cases, All, map-append, mem, ok, ℕ, zero, suc, String, append, ◌≡◌, refl, ap, ◌∙◌, ◌≢◌,
  inl, inr, true, false, Option, some, List, [], ◌∷◌, ◌++◌, map, arith,
}
use sgidal_example.Floats.{Floats, Complex}
use sgidal_example.Feeder.Engine.{Engine, set_active_element}
use sgidal_example.Feeder.Sim.{Sim, is_unloaded}
use sgidal_example.Feeder.Run.{ready_to_load_power}
use sgidal_example.Feeder.Power.{
  Pq, Source, both_parts, negative, divide, node_power, node_powers, element_powers, get_pqs_pv,
}
use sgidal_example.Feeder.Power.Elements.{Datum, get_pvsystems}

divide_total :
    (F : Floats) (z : Complex F) (n : ℕ) → n ≢ 0 → (q : Complex F) × (divide F z n ≡ ok q)
unfolding divide
divide_total F z zero h = absurd (h refl)
divide_total F z (suc n) h =
    ((F.over z.0 (F.from_ℕ (suc n)), F.over z.1 (F.from_ℕ (suc n))), ground arith)

module _ {F : Floats} where
  -- The element has a phase, and its nodes are nodes of the feeder.
  abbrev pub IsConnected : List String → Datum F → Type 0
  IsConnected all_node_names d =
      (d.num_phases ≢ 0) × All (λ name. mem name all_node_names ≡ true) d.node_names

  -- The pairs of an element's name with each of its nodes, element by element.
  abbrev pub terminals_of : List (Datum F) → List (String × String)
  terminals_of [] = []
  terminals_of (d ∷ rest) = map (λ name. (d.full_name, name)) d.node_names ++ terminals_of rest

  abbrev pub terminal : Pq F → String × String
  terminal p = (p.equipment_id, p.id)

  node_powers-static :
      (all_node_names : List String) (source : Source) (rated : Complex F) (d : Datum F) (i : ℕ)
      (names : List String)
      → d.num_phases ≢ 0
      → All (λ name. mem name all_node_names ≡ true) names
      → (zs : List (Pq F)) × (node_powers all_node_names source true rated d i names ≡ ok zs)
        × (map terminal zs ≡ map (λ name. (d.full_name, name)) names)
  unfolding node_powers node_power
  node_powers-static all_node_names source rated d i [] phases h = ([], refl, refl)
  node_powers-static all_node_names source rated d i (name ∷ names) phases h =
      let (q, run_q) = divide_total F rated d.num_phases phases in
      let (zs, run, same) =
        node_powers-static all_node_names source rated d (suc i) names phases h.1 in
      (
        record { value = q; equipment_id = d.full_name; id = name } ∷ zs,
        rw (h.0, run_q, run) refl,
        ap (λ ts. (d.full_name, name) ∷ ts) same,
      )

  element_powers-static :
      (active : Datum F → Option String) (source : Source) (rated : Datum F → Complex F)
      (ds : List (Datum F)) (s : Sim F)
      → All (IsConnected s.all_node_names) ds
      → (zs : List (Pq F)) × ((element_powers active source rated true ds s).0 ≡ ok zs)
        × (map terminal zs ≡ terminals_of ds)
  unfolding element_powers
  element_powers-static active source rated [] s h = ([], refl, refl)
  element_powers-static active source rated (d ∷ ds) s h =
      let (zs, run, same) =
        node_powers-static s.all_node_names source (rated d) d 0 d.node_names h.0.0 h.0.1 in
      elim (Option-cases (active d)) [
        | inl quiet ↦
            let (more, run_more, same_more) = element_powers-static active source rated ds s h.1 in
            (
              zs ++ more,
              ground (arith, run, run_more),
              map-append terminal zs more
                  ∙ ap (λ xs. xs ++ map terminal more) same
                  ∙ ap (λ ys. map (λ name. (d.full_name, name)) d.node_names ++ ys) same_more,
            )
        | inr (name, named) ↦
            let after : Sim F = record s { history = set_active_element name ∷ s.history } in
            let (more, run_more, same_more) =
              element_powers-static active source rated ds after h.1 in
            (
              zs ++ more,
              ground (arith, run, run_more),
              map-append terminal zs more
                  ∙ ap (λ xs. xs ++ map terminal more) same
                  ∙ ap (λ ys. map (λ name. (d.full_name, name)) d.node_names ++ ys) same_more,
            )
      ]

module _ {F : Floats} (e : Engine F) (sortby_ids : List (Pq F) → List (Pq F)) where
  -- With `static`, in a loaded feeder whose PV systems have a phase and stand at nodes of the feeder,
  -- `get_pqs_pv` returns an array that `sortby` has sorted of exactly the terminals of the PV systems,
  -- one value for each node of each.
  pub get_pqs_pv_static :
      (s : Sim F) (pvs : List (Datum F))
      → is_unloaded s.state ≡ false
      → get_pvsystems e s.history ≡ ok pvs
      → All (IsConnected s.all_node_names) pvs
      → (zs : List (Pq F)) × ((get_pqs_pv e sortby_ids true s).0 ≡ ok (sortby_ids zs))
        × (map terminal zs ≡ terminals_of pvs)
  unfolding get_pqs_pv ready_to_load_power
  get_pqs_pv_static s pvs state read connected =
      let (zs, run, same) =
        element_powers-static (λ d. some (append "PVSystem." d.name)) both_parts
          (λ d. (negative F d.kw, negative F d.kvar)) pvs s connected in
      (zs, ground (arith, state, read, run), same)
