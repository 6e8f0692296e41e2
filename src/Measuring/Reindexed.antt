-- ===== src/Measuring/Reindexed.antt =====
-- What `reindex` picks.
use sgidal_example.Prelude.{
  Option-cases, length, get_elem?, All, lt_of_get_elem?, get_elem?-lt, lookup, mem, IsUnique, ok, ℕ,
  zero, suc, ◌<◌, String, ◌≡◌, refl, sym, ap, ◌∙◌, subst, inl, inr, true, none, some, List, [], ◌∷◌,
  Option,
}
use sgidal_example.Indexing.{index_map}
use sgidal_example.Indexing.Lookup.{index_map_sound, index_map_complete, index_map-get_elem?}
use sgidal_example.Measuring.{MeasurementArray, pick_all, reindex}

module _ {A : Type 0} where
  -- Place by place, what `xs` has where `ids` has the name.
  abbrev pub IsPicked : List String → List A → List String → List A → Type 0
  IsPicked ids xs names picked =
      (k j : ℕ) (name : String)
      → get_elem? names k ≡ some name
      → get_elem? ids j ≡ some name
      → get_elem? picked k ≡ get_elem? xs j

  IsPicked-cons :
      (ids : List String) (xs : List A) (name : String) (names : List String) (picked : List A)
      (a : A) (j : ℕ)
      → IsUnique ids
      → lookup name (index_map ids) ≡ some j
      → get_elem? xs j ≡ some a
      → IsPicked ids xs names picked
      → IsPicked ids xs (name ∷ names) (a ∷ picked)
  IsPicked-cons ids xs name names picked a j unique found at p zero i other e place =
      let same : name ≡ other = cc in
      let here = index_map-get_elem? ids i other unique place in
      let i_is : some j ≡ some i = sym found ∙ ap (λ n. lookup n (index_map ids)) same ∙ here in
      let j_is : j ≡ i = cc in sym at ∙ ap (get_elem? xs) j_is
  IsPicked-cons ids xs name names picked a j unique found at p (suc k) i other e place =
      p k i other e place

  pick_one :
      (ids : List String) (xs : List A) (name : String)
      → length xs ≡ length ids
      → mem name ids ≡ true
      → (j : ℕ) × (a : A) × (lookup name (index_map ids) ≡ some j) × (get_elem? xs j ≡ some a)
  pick_one ids xs name same h =
      let (j, found) = index_map_complete ids name h in
      let inside : j < length xs =
        subst (λ n. j < n) (sym same)
          (lt_of_get_elem? ids j name (index_map_sound ids name j found)) in
      let (a, at) = get_elem?-lt xs j inside in (j, a, found, at)

  pick_all-IsPicked :
      (ids : List String) (xs : List A) (names : List String)
      → IsUnique ids
      → length xs ≡ length ids
      → All (λ name. mem name ids ≡ true) names
      → (picked : List A) × (pick_all (index_map ids) xs names ≡ ok picked)
        × (length picked ≡ length names)
        × IsPicked ids xs names picked
  unfolding pick_all
  pick_all-IsPicked ids xs [] unique same h = ([], refl, refl, λ k j name e at. absurd (cc))
  pick_all-IsPicked ids xs (name ∷ names) unique same h =
      let (j, a, found, at) = pick_one ids xs name same h.0 in
      let (picked, run, long, p) = pick_all-IsPicked ids xs names unique same h.1 in
      (
        a ∷ picked,
        rw (found, at, run) refl,
        ap suc long,
        IsPicked-cons ids xs name names picked a j unique found at p,
      )

module _ {A : Type 0} where
  -- Where the ids of the array are distinct and each has a value (and an equipment), and every name
  -- asked for is one of them, `reindex` returns: the ids are the names as they were asked for, and
  -- each place has the value that the array has under that name; units and time are kept.
  pub reindex-IsPicked :
      (m : MeasurementArray A) (names : List String)
      → IsUnique m.ids
      → length m.values ≡ length m.ids
      → ((equipment : List String)
          → m.equipment_ids ≡ some equipment
          → length equipment ≡ length m.ids)
      → All (λ name. mem name m.ids ≡ true) names
      → (r : MeasurementArray A) × (reindex m names ≡ ok r)
        × (r.ids ≡ names)
        × (r.units ≡ m.units)
        × (r.time ≡ m.time)
        × (length r.values ≡ length names)
        × IsPicked m.ids m.values names r.values
  unfolding reindex
  reindex-IsPicked m names unique same equipped h =
      let (values, run, long, p) = pick_all-IsPicked m.ids m.values names unique same h in
      elim (Option-cases m.equipment_ids) [
        | inl bare ↦ (
          record {
            values = values;
            ids = names;
            units = m.units;
            time = m.time;
            equipment_ids = none;
          },
          rw (run, bare) refl,
          refl,
          refl,
          refl,
          long,
          p,
        )
        | inr (equipment, has) ↦
            let (others, run_others, _, _) =
              pick_all-IsPicked m.ids equipment names unique (equipped equipment has) h in
            (
              record {
                values = values;
                ids = names;
                units = m.units;
                time = m.time;
                equipment_ids = some others;
              },
              rw (run, has, run_others) refl,
              refl,
              refl,
              refl,
              long,
              p,
            )
      ]

  pick_all-total :
      (ids : List String) (xs : List A) (names : List String)
      → length xs ≡ length ids
      → All (λ name. mem name ids ≡ true) names
      → (picked : List A) × (pick_all (index_map ids) xs names ≡ ok picked)
  unfolding pick_all
  pick_all-total ids xs [] same h = ([], refl)
  pick_all-total ids xs (name ∷ names) same h =
      let (j, a, found, at) = pick_one ids xs name same h.0 in
      let (picked, run) = pick_all-total ids xs names same h.1 in
      (a ∷ picked, rw (found, at, run) refl)

module _ {A : Type 0} where
  -- Where the ids of the array may stand more than once, `reindex` still returns the names asked for.
  pub reindex-ids :
      (m : MeasurementArray A) (names : List String)
      → length m.values ≡ length m.ids
      → ((equipment : List String)
          → m.equipment_ids ≡ some equipment
          → length equipment ≡ length m.ids)
      → All (λ name. mem name m.ids ≡ true) names
      → (r : MeasurementArray A) × (reindex m names ≡ ok r) × (r.ids ≡ names)
  unfolding reindex
  reindex-ids m names same equipped h =
      let (values, run) = pick_all-total m.ids m.values names same h in
      let picked : Option (List String) → MeasurementArray A = λ (o : Option (List String)).
        record {
          values = values;
          ids = names;
          units = m.units;
          time = m.time;
          equipment_ids = o;
        } in
      elim (Option-cases m.equipment_ids) [
        | inl bare ↦ (picked none, rw (run, bare) refl, refl)
        | inr (equipment, has) ↦
            let (others, run_others) =
              pick_all-total m.ids equipment names (equipped equipment has) h in
            (picked (some others), rw (run, has, run_others) refl, refl)
      ]
