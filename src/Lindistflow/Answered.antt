-- ===== src/Lindistflow/Answered.antt =====
-- `optimal_power_flow` on a network that is all primary, from the solver's values to what it returns.
use sgidal_example.Prelude.{
  length, get_elem?, set, All, All-map, or_raise, Result-cases, or_raise-eq-ok, bind_ok,
  ok_injective, Result, Dict, lookup, insert, keys, IsUnique, index_error, ok, ℕ, suc, ◌+◌, ◌*◌,
  ◌≤◌, ◌<◌, ◌≡◌, refl, sym, ap, ◌∙◌, subst, inl, inr, Option, some, List, [], ◌∷◌, arith, ◌>>=◌,
}
use sgidal_example.Floats.{Floats}
use sgidal_example.Area.{AreaBus, AreaBranch}
use sgidal_example.Lindistflow.{ControlType}
use sgidal_example.Lindistflow.Build.{Sizes, n_bus, variable_number, n_qdg, sizes_of}
use sgidal_example.Lindistflow.Injection.{base_s}
use sgidal_example.Lindistflow.Limits.{range_from}
use sgidal_example.Lindistflow.Solution.{
  by_phase, three_at, control_start, line_flows, voltages_at, placed_voltages, bus_voltages,
  control_variables,
}
use sgidal_example.Lindistflow.Program.{Opf, read_solution}
use sgidal_example.Lindistflow.Reading.{
  Succeeds, line_flows-Succeeds, placed_voltages-Succeeds, bus_voltages-Succeeds,
  control_variables-Succeeds, generation_output-Succeeds,
}
use sgidal_example.Lindistflow.Stored.{All-of_lookup, store_all, store_all-stored}
use sgidal_example.Lindistflow.Bounds.Inequalities.{range_from-below}
use sgidal_example.Lindistflow.Bounds.Assembly.{IsPrimaryNetwork, sizes_of-branches, sizes_of-buses}

length-keys : {A : Type 0} (d : Dict A) → length (keys d) ≡ length d
length-keys [] = refl
length-keys ((k, v) ∷ d) = ap suc (length-keys d)

-- An entry holds three values, at three places, each by a function.
abbrev pub AreRead : {A B : Type 0} → List A → (A → B) → ℕ → ℕ → ℕ → Option (Dict B) → Type 0
AreRead {A = A} xs f i j k entry =
    (a : A) × (b : A) × (c : A) × (get_elem? xs i ≡ some a)
    × (get_elem? xs j ≡ some b)
    × (get_elem? xs k ≡ some c)
    × (entry ≡ some (by_phase (f a) (f b) (f c)))

three_at-AreRead :
    {A B : Type 0} (xs : List A) (f : A → B) (i j k : ℕ) (v : A × A × A)
    → three_at xs i j k ≡ ok v
    → AreRead xs f i j k (some (by_phase (f v.0) (f v.1) (f v.2)))
unfolding three_at
three_at-AreRead xs f i j k v e =
    let (a, at_a, e') = bind_ok (or_raise (get_elem? xs i) index_error) _ e in
    let (b, at_b, e'') = bind_ok (or_raise (get_elem? xs j) index_error) _ e' in
    let (c, at_c, last) = bind_ok (or_raise (get_elem? xs k) index_error) _ e'' in
    (
      a,
      b,
      c,
      or_raise-eq-ok _ _ at_a,
      or_raise-eq-ok _ _ at_b,
      or_raise-eq-ok _ _ at_c,
      ap (λ v. some (by_phase (f v.0) (f v.1) (f v.2))) (sym (ok_injective last)),
    )

module _ (F : Floats) where
  -- The set points of a bus, by the first column of the control.
  abbrev pub set_points : Sizes → List F.Float → ℕ → AreaBus F → Result (Dict F.Float)
  set_points z xs first b =
      three_at xs (b.idx + first) (z.nbus_abc + b.idx + first) (z.nbus_abc * 2 + b.idx + first)
      >>= λ v. ok (by_phase v.0 v.1 v.2)

  bus_voltages-store_all :
      (z : Sizes) (xs : List F.Float) (d : Dict (AreaBus F)) (acc : Dict (Dict F.Float))
      → bus_voltages F z xs d acc ≡ store_all (λ (b : AreaBus F). voltages_at F z xs b.idx) d acc
  unfolding bus_voltages
  bus_voltages-store_all z xs [] acc = refl
  bus_voltages-store_all z xs ((key, b) ∷ rest) acc =
      λ i. voltages_at F z xs b.idx >>= λ v. bus_voltages-store_all z xs rest (insert key v acc) i

  control_variables-store_all :
      (z : Sizes) (xs : List F.Float) (first : ℕ) (d : Dict (AreaBus F)) (acc : Dict (Dict F.Float))
      → control_variables F z xs (ok first) d acc ≡ store_all (set_points z xs first) d acc
  unfolding control_variables
  control_variables-store_all z xs first [] acc = refl
  control_variables-store_all z xs first ((key, b) ∷ rest) acc =
      elim (Result-cases (
        three_at xs (b.idx + first) (z.nbus_abc + b.idx + first)
          (z.nbus_abc * 2 + b.idx + first))) [
            | inl (v, got) ↦ rw (got) (control_variables-store_all z xs first rest _)
            | inr (x, failed) ↦ rw (failed) refl
          ]

  voltages_at-AreRead :
      (z : Sizes) (xs : List F.Float) (k : ℕ) (v : Dict F.Float) (entry : Option (Dict F.Float))
      → voltages_at F z xs k ≡ ok v
      → entry ≡ some v
      → AreRead xs (λ v. F.sqrt (F.abs v)) k (z.nbus_abc + k) (z.nbus_abc * 2 + k) entry
  unfolding voltages_at
  voltages_at-AreRead z xs k v entry e stored =
      let (u, got, made) = bind_ok (three_at xs k (z.nbus_abc + k) (z.nbus_abc * 2 + k)) _ e in
      subst (AreRead xs (λ v. F.sqrt (F.abs v)) k (z.nbus_abc + k) (z.nbus_abc * 2 + k))
        (ap some (ok_injective made) ∙ sym stored)
        (three_at-AreRead xs (λ v. F.sqrt (F.abs v)) _ _ _ u got)

  set_points-AreRead :
      (z : Sizes) (xs : List F.Float) (first : ℕ) (b : AreaBus F) (v : Dict F.Float)
      (entry : Option (Dict F.Float))
      → set_points z xs first b ≡ ok v
      → entry ≡ some v
      → AreRead xs
          (λ v. v)
          (b.idx + first)
          (z.nbus_abc + b.idx + first)
          (z.nbus_abc * 2 + b.idx + first)
          entry
  set_points-AreRead z xs first b v entry e stored =
      let (u, got, made) =
        bind_ok
          (three_at xs (b.idx + first) (z.nbus_abc + b.idx + first)
            (z.nbus_abc * 2 + b.idx + first))
          _ e in
      subst
        (AreRead xs (λ v. v) (b.idx + first) (z.nbus_abc + b.idx + first)
          (z.nbus_abc * 2 + b.idx + first))
        (ap some (ok_injective made) ∙ sym stored) (three_at-AreRead xs (λ v. v) _ _ _ u got)

  -- What `optimal_power_flow` returns for the buses: the roots of the voltages' squares and the set
  -- points, where `first` is the first column of the control.
  abbrev pub IsAnswered : Sizes → List F.Float → ℕ → Dict (AreaBus F) → Opf F → Type 0
  IsAnswered z xs first bus_info r =
      All
        (λ p.
          AreRead xs (λ v. F.sqrt (F.abs v)) p.1.idx (z.nbus_abc + p.1.idx)
            (z.nbus_abc * 2 + p.1.idx) (lookup p.0 r.bus_voltage)
          × AreRead xs (λ v. v) (p.1.idx + first) (z.nbus_abc + p.1.idx + first)
              (z.nbus_abc * 2 + p.1.idx + first) (lookup p.0 r.control))
        bus_info

  module _ (branch_info : Dict (AreaBranch F)) (bus_info : Dict (AreaBus F))
      (network : IsPrimaryNetwork branch_info bus_info) (xs : List F.Float)
      (whole : length xs ≡ variable_number (sizes_of branch_info bus_info)) where
    -- The three loops that do not read the control.
    pub flows-Succeeds : Succeeds (
        line_flows F
          (sizes_of branch_info bus_info)
          xs
          (keys branch_info)
          (range_from 0 (sizes_of branch_info bus_info).nbranch_abc)
          [])
    flows-Succeeds =
        let z = sizes_of branch_info bus_info in
        let count =
          sizes_of-branches branch_info bus_info network ∙ sym (length-keys branch_info) in
        line_flows-Succeeds F z xs whole (keys branch_info) (range_from 0 z.nbranch_abc) [] (
          All-map (λ i below. (subst (λ n. i < n) count below, below)) (range_from 0 z.nbranch_abc)
            (range_from-below 0 z.nbranch_abc z.nbranch_abc (omega arith)))

    pub placed-Succeeds : Succeeds (
        placed_voltages F
          (sizes_of branch_info bus_info)
          xs
          (keys bus_info)
          (range_from 0 (sizes_of branch_info bus_info).nbus_abc)
          [])
    placed-Succeeds =
        let z = sizes_of branch_info bus_info in
        let count = sizes_of-buses branch_info bus_info network ∙ sym (length-keys bus_info) in
        placed_voltages-Succeeds F z xs whole (keys bus_info) (range_from 0 z.nbus_abc) [] (
          All-map (λ i below. (subst (λ n. i < n) count below, below)) (range_from 0 z.nbus_abc)
            (range_from-below 0 z.nbus_abc z.nbus_abc (omega arith)))

    pub read_solution-IsAnswered :
        (control : ControlType) (limits : List F.Float) (first : ℕ)
        → length limits ≡ n_bus (sizes_of branch_info bus_info)
        → control_start control (sizes_of branch_info bus_info) ≡ ok first
        → first ≤ n_qdg (sizes_of branch_info bus_info)
        → IsUnique (keys bus_info)
        → (r : Opf F) × (read_solution branch_info bus_info control (some limits) xs ≡ ok r)
          × IsAnswered (sizes_of branch_info bus_info) xs first bus_info r
    unfolding read_solution
    read_solution-IsAnswered control limits first known starts low unique =
        let z = sizes_of branch_info bus_info in
        let numbered = All-map (λ p h. h.0) bus_info network.buses in
        let (flows, flow) = flows-Succeeds in
        let (placed, place) = placed-Succeeds in
        let (voltages, read) = bus_voltages-Succeeds F z xs whole bus_info placed numbered in
        let (output, generate) =
          generation_output-Succeeds F z xs whole limits first (range_from 0 (z.nbus_abc * 3)) low (
            All-map (λ k below. (omega arith, omega arith)) (range_from 0 (z.nbus_abc * 3))
              (range_from-below 0 (z.nbus_abc * 3) (z.nbus_abc * 3) (omega arith))) in
        let (points, set) =
          control_variables-Succeeds F z xs whole first bus_info [] low numbered in
        (
          record {
            bus_voltage = voltages;
            line_flow = flows;
            control = points;
            kw_converter = F.over (F.over (F.from_ℕ 1) (base_s F)) (F.from_ℕ 1000);
          },
          rw (starts, flow, place, read, generate, set) refl,
          All-of_lookup _ bus_info unique (λ key b at.
              let (v, here, there) =
                store_all-stored _ bus_info placed voltages unique
                  (sym (bus_voltages-store_all z xs bus_info placed) ∙ read) key b at in
              let (s, here', there') =
                store_all-stored _ bus_info [] points unique
                  (sym (control_variables-store_all z xs first bus_info []) ∙ set) key b at in
              (
                voltages_at-AreRead z xs b.idx v _ here there,
                set_points-AreRead z xs first b s _ here' there',
              )),
        )
