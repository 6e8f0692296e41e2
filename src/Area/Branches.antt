-- ===== src/Area/Branches.antt =====
-- The branches of the area, by the places of their ends among the area's buses.
use sgidal_example.Prelude.{
  if◌then◌else◌, Bool-cases, get_elem?, All, Dict, lookup, has_key, insert, keys, lookup_of_has_key,
  mem, IsUnique, ok, ℕ, suc, ◌+◌, String, ◌≡◌, refl, sym, ap, ◌∙◌, inl, inr, Bool, true, false,
  ◌&&◌, none, some, List, [], ◌∷◌, arith, str_eq, eq_iff,
}
use sgidal_example.Floats.{Floats}
use sgidal_example.Adapter.Info.{Bus, Branch}
use sgidal_example.Area.{
  AreaBus, AreaBranch, pick_area, primary_kv_level, graph_process, secondary_buses, area_branch,
  takes_branch, area_branches, area_info,
}
use sgidal_example.Area.Numbered.{IsThreePhase, primary_names, AreCounted, primary_buses_total}

module _ {F : Floats} where
  lookup-AreCounted :
      (name : String) (row : AreaBus F) (i : ℕ) (d : Dict (AreaBus F))
      → AreCounted i d
      → lookup name d ≡ some row
      → (k : ℕ) × (row.idx ≡ i + k) × (get_elem? (keys d) k ≡ some name)
  lookup-AreCounted name row i [] c h = absurd (cc)
  lookup-AreCounted name row i ((j, r) ∷ d) c h = elim (Bool-cases (str_eq j name)) [
    | inl same ↦
        let e : r ≡ row = ground arith in
        (
          0,
          ap (λ (x : AreaBus F). x.idx) (sym e) ∙ c.0 ∙ omega arith,
          ground (arith, eq_iff j name),
        )
    | inr other ↦
        let (k, e, at) = lookup-AreCounted name row (suc i) d c.1 (ground arith) in
        (suc k, e ∙ omega arith, at)
  ]

  -- The branch names its two ends, and holds their places among the buses' names.
  abbrev pub IsPlaced : List String → String × AreaBranch F → Type 0
  IsPlaced names p =
      (get_elem? names p.1.from ≡ some p.1.fr_bus) × (get_elem? names p.1.to ≡ some p.1.to_bus)

  insert-All :
      (P : String × AreaBranch F → Type 0) (key : String) (row : AreaBranch F)
      (d : Dict (AreaBranch F))
      → ((j : String) → P (j, row))
      → All P d
      → All P (insert key row d)
  insert-All P key row [] p h = (p key, tt)
  insert-All P key row ((j, r) ∷ d) p h = elim (Bool-cases (str_eq j key)) [
    | inl same ↦ rw (same) (p j, h.1)
    | inr other ↦ rw (other) (h.0, insert-All P key row d p h.1)
  ]

  area_branch-IsPlaced :
      (second : Bool) (idx : ℕ) (b : Branch F) (buses : Dict (AreaBus F))
      → AreCounted 0 buses
      → has_key b.fr_bus buses ≡ true
      → has_key b.to_bus buses ≡ true
      → str_eq b.kind "SPLIT_PHASE" ≡ false
      → (row : AreaBranch F) × (area_branch second idx b buses ≡ ok row)
        × ((j : String) → IsPlaced (keys buses) (j, row))
  unfolding area_branch
  area_branch-IsPlaced second idx b buses c has_from has_to kind =
      let (from, found_from) = lookup_of_has_key b.fr_bus buses has_from in
      let (to, found_to) = lookup_of_has_key b.to_bus buses has_to in
      let (k, e_from, at_from) = lookup-AreCounted b.fr_bus from 0 buses c found_from in
      let (l, e_to, at_to) = lookup-AreCounted b.to_bus to 0 buses c found_to in
      (
        record {
          idx = idx;
          kind = b.kind;
          from = from.idx;
          to = to.idx;
          fr_bus = b.fr_bus;
          to_bus = b.to_bus;
          phases = b.phases;
          zprim = if second then none else some b.zprim;
          impedance = if second then some b.zprim else none;
        },
        rw (found_from, found_to, kind) refl,
        λ j. (
          ap (get_elem? (keys buses)) (e_from ∙ omega arith) ∙ at_from,
          ap (get_elem? (keys buses)) (e_to ∙ omega arith) ∙ at_to,
        ),
      )

  module _ (second : Bool) (idx : ℕ) (key : String) (b : Branch F) (d : Dict (Branch F))
      (buses : Dict (AreaBus F)) (acc : Dict (AreaBranch F)) where
    area_branches_taken :
        (row : AreaBranch F)
        → takes_branch second key b buses ≡ true
        → area_branch second idx b buses ≡ ok row
        → area_branches second idx ((key, b) ∷ d) buses acc
          ≡ area_branches second (suc idx) d buses (insert key row acc)
    unfolding area_branches
    area_branches_taken row taken made = ground arith

    area_branches_left :
        takes_branch second key b buses ≡ false
        → area_branches second idx ((key, b) ∷ d) buses acc ≡ area_branches second idx d buses acc
    unfolding area_branches
    area_branches_left left = ground arith

  ends_of_takes_branch :
      (second : Bool) (key : String) (b : Branch F) (buses : Dict (AreaBus F))
      → takes_branch second key b buses ≡ true
      → (has_key b.fr_bus buses ≡ true) × (has_key b.to_bus buses ≡ true)
  unfolding takes_branch
  ends_of_takes_branch second key b buses h = (ground arith, ground arith)

  -- No branch is of the kind that wants an impedance of its own.
  abbrev pub IsPlain : String × Branch F → Type 0
  IsPlain p = str_eq p.1.kind "SPLIT_PHASE" ≡ false

  area_branches_total :
      (second : Bool) (idx : ℕ) (d : Dict (Branch F)) (buses : Dict (AreaBus F))
      (acc : Dict (AreaBranch F))
      → AreCounted 0 buses
      → All IsPlain d
      → All (IsPlaced (keys buses)) acc
      → (rows : Dict (AreaBranch F)) × (area_branches second idx d buses acc ≡ ok rows)
        × All (IsPlaced (keys buses)) rows
  unfolding area_branches
  area_branches_total second idx [] buses acc c plain placed = (acc, refl, placed)
  area_branches_total second idx ((key, b) ∷ d) buses acc c plain placed =
      elim (Bool-cases (takes_branch second key b buses)) [
        | inr left ↦
            let (rows, run, p) = area_branches_total second idx d buses acc c plain.1 placed in
            (rows, area_branches_left second idx key b d buses acc left ∙ run, p)
        | inl taken ↦
            let (has_from, has_to) = ends_of_takes_branch second key b buses taken in
            let (row, made, at) =
              area_branch-IsPlaced second idx b buses c has_from has_to plain.0 in
            let (rows, run, p) =
              area_branches_total second (suc idx) d buses (insert key row acc) c plain.1
                (insert-All (IsPlaced (keys buses)) key row acc at placed) in
            (rows, area_branches_taken second idx key b d buses acc row taken made ∙ run, p)
      ]

  -- The bus is not one that the second loop takes.
  abbrev pub IsPrimary : List String → String × Bus F → Type 0
  IsPrimary area p = (mem p.0 area && F.lt p.1.kv (primary_kv_level F)) ≡ false

  secondary_buses_none :
      (area : List String) (d : Dict (Bus F))
      → All (IsPrimary area) d
      → secondary_buses (some area) d ≡ ok tt
  unfolding secondary_buses
  secondary_buses_none area [] h = refl
  secondary_buses_none area ((key, b) ∷ d) h =
      let first = h.0 in ground (arith, secondary_buses_none area d h.1)

  module _ (connected_components : List (String × String) → List (List String)) where
    -- Where the source stands in a component, every bus has three phases of loads and generators,
    -- no bus of the component lies below the level and no branch is a split phase, `area_info`
    -- returns: its buses are the component's buses above the level in their order, each numbered by
    -- its place, and the ends of every branch are the places of the two buses it names.
    pub area_info-IsPlaced :
        (branch_info : Dict (Branch F)) (bus_info : Dict (Bus F)) (source : String)
        (area : List String)
        → pick_area source source (connected_components (graph_process branch_info).0) ≡ some area
        → IsUnique (keys bus_info)
        → All IsThreePhase bus_info
        → All (IsPrimary area) bus_info
        → All IsPlain branch_info
        → (branches : Dict (AreaBranch F)) × (buses : Dict (AreaBus F)) × (area_info
              connected_components branch_info bus_info source
            ≡ ok (branches, buses))
          × (keys buses ≡ primary_names area bus_info)
          × AreCounted 0 buses
          × All (IsPlaced (keys buses)) branches
    unfolding area_info
    area_info-IsPlaced branch_info bus_info source area picked unique three primary plain =
        let (buses, run_buses, names, counted) =
          primary_buses_total area bus_info [] three unique (λ x m. refl) tt in
        let none_left = secondary_buses_none area bus_info primary in
        let (rows, run_rows, placed_rows) =
          area_branches_total false 0 branch_info buses [] counted plain tt in
        let (branches, run_branches, placed) =
          area_branches_total true 0 branch_info buses rows counted plain placed_rows in
        (
          branches,
          buses,
          rw (picked, run_buses, none_left, run_rows, run_branches) refl,
          names,
          counted,
          placed,
        )
