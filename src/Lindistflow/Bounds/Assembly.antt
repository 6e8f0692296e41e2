-- ===== src/Lindistflow/Bounds/Assembly.antt =====
-- The assembly of the whole programme for a network that is all primary.
use sgidal_example.Prelude.{
  Bool-cases, length, All, All-map, or_raise, Dict, lookup, mem, key_error, ok, ℕ, ◌+◌, ◌*◌, ◌≤◌,
  String, ◌≡◌, refl, sym, ap, ◌∙◌, subst, inl, inr, Bool, true, false, some, [], ◌∷◌, arith, str_eq,
}
use sgidal_example.Prelude.Exec.{for_each, ◌>>◌}
use sgidal_example.Floats.{Floats}
use sgidal_example.Area.{AreaBus, AreaBranch, secondary_model}
use sgidal_example.Lindistflow.{ControlType, watt, var, watt_var}
use sgidal_example.Lindistflow.Build.{
  Sizes, variable_number, count_branches, count_buses, sizes_of, zeros,
}
use sgidal_example.Lindistflow.Drop.{source_voltage}
use sgidal_example.Lindistflow.Injection.{injections, secondary_reactive}
use sgidal_example.Lindistflow.Program.{Program, objective, equations, base_impedance, program}
use sgidal_example.Lindistflow.Bounds.{total, limit_count, Runs, Runs-cell, Runs-rows, Runs-lift}
use sgidal_example.Lindistflow.Bounds.Flow.{
  IsPrimaryBus, JoinsPrimary, rows_unless, flow_constraints-Runs,
}
use sgidal_example.Lindistflow.Bounds.Drops.{
  IsPrimaryBranch, primary_drops-Runs, secondary_drops-Runs, source_voltage-Runs,
}
use sgidal_example.Lindistflow.Bounds.Control.{
  limits_of, injection_rows, injections-Runs, secondary_reactive-Runs,
}
use sgidal_example.Lindistflow.Bounds.Inequalities.{
  inequalities-Runs, inequality_rows-fit, total-le,
}

pub lookup-All :
    {A : Type 0} (P : A → Type 0) (k : String) (d : Dict A) (v : A)
    → All (λ p. P p.1) d
    → lookup k d ≡ some v
    → P v
lookup-All P k [] v h e = absurd (cc)
lookup-All P k ((j, w) ∷ rest) v h e = elim (Bool-cases (str_eq j k)) [
  | inl same ↦ subst P (ground (arith, e, same)) h.0
  | inr other ↦ lookup-All P k rest v h.1 (ground (arith, e, other))
]

module _ {F : Floats} where
  -- A network whose buses are all of the primary, and numbered below their count.
  pub record IsPrimaryNetwork (branch_info : Dict (AreaBranch F)) (bus_info : Dict (AreaBus F))
      : Type 0 where
    pub buses : All (λ p. IsPrimaryBus (sizes_of branch_info bus_info) p.1) bus_info
    pub branches : All (IsPrimaryBranch (sizes_of branch_info bus_info)) branch_info
    pub joins : All (JoinsPrimary bus_info) branch_info

  count_branches-primary :
      (d : Dict (AreaBranch F)) (z : Sizes)
      → All (λ p. mem p.1.kind secondary_model ≡ false) d
      → (count_branches d z).nbranch_abc ≡ z.nbranch_abc + length d
  unfolding count_branches
  count_branches-primary [] z h = omega arith
  count_branches-primary ((key, b) ∷ rest) z h =
      let others = count_branches-primary rest (record z { nbranch_abc = z.nbranch_abc + 1 }) h.1 in
      rw (h.0, count_branches) (omega arith)

  count_buses-branches :
      (d : Dict (AreaBus F)) (z : Sizes) → (count_buses d z).nbranch_abc ≡ z.nbranch_abc
  unfolding count_buses
  count_buses-branches [] z = refl
  count_buses-branches ((key, b) ∷ rest) z = elim (Bool-cases (F.lt (F.literal 12 100) b.kv)) [
    | inl above ↦ rw (above, count_buses) (count_buses-branches rest _)
    | inr below ↦ rw (below, count_buses) (count_buses-branches rest _)
  ]

  count_branches-buses :
      (d : Dict (AreaBranch F)) (z : Sizes) → (count_branches d z).nbus_abc ≡ z.nbus_abc
  unfolding count_branches
  count_branches-buses [] z = refl
  count_branches-buses ((key, b) ∷ rest) z = elim (Bool-cases (mem b.kind secondary_model)) [
    | inl second ↦ rw (second, count_branches) (count_branches-buses rest _)
    | inr first ↦ rw (first, count_branches) (count_branches-buses rest _)
  ]

  count_buses-primary :
      (d : Dict (AreaBus F)) (z : Sizes)
      → All (λ p. F.lt (F.literal 12 100) p.1.kv ≡ true) d
      → (count_buses d z).nbus_abc ≡ z.nbus_abc + length d
  unfolding count_buses
  count_buses-primary [] z h = omega arith
  count_buses-primary ((key, b) ∷ rest) z h =
      let others = count_buses-primary rest (record z { nbus_abc = z.nbus_abc + 1 }) h.1 in
      rw (h.0, count_buses) (omega arith)

  pub sizes_of-branches :
      (branch_info : Dict (AreaBranch F)) (bus_info : Dict (AreaBus F))
      → IsPrimaryNetwork branch_info bus_info
      → (sizes_of branch_info bus_info).nbranch_abc ≡ length branch_info
  unfolding sizes_of
  sizes_of-branches branch_info bus_info network =
      count_buses-branches bus_info _
      ∙ count_branches-primary branch_info _ (All-map (λ p h. h.0) branch_info network.branches)
      ∙ omega arith

  pub sizes_of-buses :
      (branch_info : Dict (AreaBranch F)) (bus_info : Dict (AreaBus F))
      → IsPrimaryNetwork branch_info bus_info
      → (sizes_of branch_info bus_info).nbus_abc ≡ length bus_info
  unfolding sizes_of
  sizes_of-buses branch_info bus_info network =
      count_buses-primary bus_info _ (All-map (λ p h. h.2) bus_info network.buses)
      ∙ ap (λ n. n + length bus_info) (count_branches-buses branch_info _)
      ∙ omega arith

  -- How many equations there are.
  abbrev pub equation_count : ControlType → Dict (AreaBranch F) → Dict (AreaBus F) → String → ℕ
  equation_count control branch_info bus_info source_bus =
      total (rows_unless 6 source_bus) bus_info
      + (3 * length branch_info + (3 + (injection_rows control source_bus bus_info + 0)))

  rows_unless-le :
      (source_bus : String) (bus_info : Dict (AreaBus F))
      → total (rows_unless 6 source_bus) bus_info ≤ length bus_info * 6
  rows_unless-le source_bus bus_info =
      total-le (rows_unless 6 source_bus) 6 (λ p. ground arith) bus_info

  injection_rows-le :
      (control : ControlType) (source_bus : String) (bus_info : Dict (AreaBus F))
      → injection_rows control source_bus bus_info ≤ length bus_info * 6
  injection_rows-le watt source_bus bus_info = rows_unless-le source_bus bus_info
  injection_rows-le var source_bus bus_info = rows_unless-le source_bus bus_info
  injection_rows-le watt_var source_bus bus_info = omega arith

  module _ (branch_info : Dict (AreaBranch F)) (bus_info : Dict (AreaBus F)) (source_bus : String)
      (control : ControlType) (network : IsPrimaryNetwork branch_info bus_info) (source : AreaBus F)
      (known : lookup source_bus bus_info ≡ some source) where
    equations-Runs :
        (z : Sizes) (base_z : F.Float)
        → sizes_of branch_info bus_info ≡ z
        → Runs F
            (variable_number z)
            0
            (limits_of control z)
            (equation_count control branch_info bus_info source_bus)
            (equation_count control branch_info bus_info source_bus)
            (equations control z base_z branch_info bus_info source_bus)
    unfolding equations
    equations-Runs z base_z e =
        let count = sizes_of-branches branch_info bus_info network ∙ refl in
        let buses = subst (λ z. All (λ p. IsPrimaryBus z p.1) bus_info) e network.buses in
        let branches = subst (λ z. All (IsPrimaryBranch z) branch_info) e network.branches in
        let branch_count = ap (λ (x : Sizes). x.nbranch_abc) (sym e) ∙ count in
        let inside = (lookup-All (IsPrimaryBus z) source_bus bus_info source buses known).0 in
        Runs-rows
          (flow_constraints-Runs z branch_info bus_info 0 network.joins (omega arith) source_bus
            buses)
          (Runs-rows (primary_drops-Runs z base_z 0 0 branch_info (omega arith) branches) (
            Runs-cell (secondary_drops-Runs z base_z 0 0 branch_info branches)
              (Runs-lift (or_raise (lookup source_bus bus_info) key_error)
                (λ source.
                  source_voltage {F = F} z source.idx
                  >> (injections control z bus_info source_bus
                      >> for_each bus_info (λ p. secondary_reactive z p.1)))
                source _ _ (rw (known) refl)
                (Runs-rows (source_voltage-Runs z base_z 0 source.idx inside) (
                  Runs-rows (injections-Runs control z bus_info source_bus buses)
                    (secondary_reactive-Runs z bus_info buses))))
              (omega arith)))

    -- For a network that is all primary the arrays of the programme are filled without an error: every
    -- cell that is written lies in them, and both end before their last row.
    pub program-fits :
        (pf_flag : Bool)
        → (p : Program F) × (program branch_info bus_info source_bus control pf_flag ≡ ok p)
          × (p.equalities.counteq ≡ equation_count control branch_info bus_info source_bus)
          × (p.equalities.counteq ≤ p.equalities.rows)
          × (p.inequalities.counteq ≤ p.inequalities.rows)
          × (limit_count p.equalities.limits ≡ limits_of control (sizes_of branch_info bus_info))
    unfolding program base_impedance zeros
    program-fits pf_flag =
        let z = sizes_of branch_info bus_info in
        let inside =
          (lookup-All (IsPrimaryBus z) source_bus bus_info source network.buses known).0 in
        let branch_count = sizes_of-branches branch_info bus_info network in
        let bus_count = sizes_of-buses branch_info bus_info network in
        let injected = injection_rows-le control source_bus bus_info in
        let balanced = rows_unless-le source_bus bus_info in
        let base_kv = F.over source.kv (F.sqrt (F.from_ℕ 3)) in
        let base_z = F.over (F.times base_kv base_kv) (F.from_ℕ 100) in
        let (t, run, limits, grown) =
          (equations-Runs z base_z refl).runs (zeros z) refl refl (omega arith) in
        let (u, run', _, grown') =
          (inequalities-Runs {F = F} {l = 0} control z pf_flag t.limits t.v_lim (omega arith)
              limits).runs
            (zeros z) refl refl (omega (arith, inequality_rows-fit control z t.v_lim)) in
        (
          record { objective = objective F control z; equalities = t; inequalities = u },
          rw (known, run, run') refl,
          grown.0 ∙ omega arith,
          omega (arith, grown.0, grown.1),
          omega (arith, grown'.0, grown'.1, inequality_rows-fit control z t.v_lim),
          limits,
        )
