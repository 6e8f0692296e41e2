-- ===== src/Lindistflow/Bounds/Control.antt =====
-- The equations of the injections in a network that is all primary: their rows and columns.
use sgidal_example.Prelude.{
  if◌then◌else◌, Bool-cases, length, replicate, All, length-replicate, get_elem?-lt, Dict, ℕ, suc,
  ◌+◌, ◌*◌, ◌<◌, String, refl, ap, inl, inr, some, [], ◌∷◌, arith, str_eq,
}
use sgidal_example.Prelude.Exec.{Exec, pure, lift, for_each, ◌>>=◌, ◌>>◌}
use sgidal_example.Floats.{Floats}
use sgidal_example.Area.{AreaBus}
use sgidal_example.Lindistflow.{ControlType, watt, var, watt_var}
use sgidal_example.Lindistflow.Build.{
  Sizes, Build, n_bus, variable_number, set_b, set_limit, advance,
}
use sgidal_example.Lindistflow.Injection.{
  load_of, per_unit, reactive_limit, pair_at, watt_real, watt_limit, watt_reactive, watt_primary,
  watt_bus, var_real, var_reactive, var_limit, var_primary, var_bus, secondary_reactive,
  bind_limits, injections,
}
use sgidal_example.Lindistflow.Bounds.{
  total, Runs, Runs-pure, Runs-set_a, Runs-set_b, Runs-set_limit, Runs-cell, Runs-rows,
  Runs-advance_row, Runs-lift, Runs-for_each,
}
use sgidal_example.Lindistflow.Bounds.Flow.{IsPrimaryBus, rows_unless}

-- How the limits that a mode leaves are counted.
abbrev pub limits_of : ControlType → Sizes → ℕ
limits_of watt z = suc (n_bus z)
limits_of var z = suc (n_bus z)
limits_of watt_var z = 0

module _ {F : Floats} where
  module _ (z : Sizes) (b : AreaBus F) (p : ℕ)
      (inside : z.nbus_abc * p + b.idx < z.nbus_abc * 3) where
    pub watt_real-Runs :
        p < length b.pq
        → Runs F (variable_number z) (suc (n_bus z)) (suc (n_bus z)) 1 1 (watt_real z b p)
    unfolding watt_real
    watt_real-Runs load =
        let (pq, at) = get_elem?-lt b.pq p load in
        Runs-cell (Runs-set_a _ _ (omega arith))
          (Runs-cell (Runs-set_a _ _ (omega arith))
            (Runs-lift (pair_at b.pq p) (λ pq. set_b (load_of F pq.0) >> advance) pq 1 1
              (rw (at) refl) (Runs-cell (Runs-set_b _) Runs-advance_row (omega arith)))
            (omega arith))
          (omega arith)

    pub watt_limit-Runs :
        p < length b.pv
        → Runs F (variable_number z) (suc (n_bus z)) (suc (n_bus z)) 0 0 (watt_limit z b p)
    unfolding watt_limit
    watt_limit-Runs generation =
        let (pv, at) = get_elem?-lt b.pv p generation in
        Runs-lift (pair_at b.pv p) (λ pv. set_limit (z.nbus_abc * p + b.idx) (per_unit F pv.0)) pv 0
          0 (rw (at) refl) (Runs-set_limit _ _ (omega arith))

    pub var_limit-Runs :
        p < length b.pv
        → Runs F (variable_number z) (suc (n_bus z)) (suc (n_bus z)) 0 0 (var_limit z b p)
    unfolding var_limit
    var_limit-Runs generation =
        let (pv, at) = get_elem?-lt b.pv p generation in
        Runs-lift (pair_at b.pv p)
          (λ pv. set_limit (z.nbus_abc * p + b.idx) (reactive_limit F pv.0)) pv 0 0 (rw (at) refl)
          (Runs-set_limit _ _ (omega arith))

    pub var_real-Runs :
        p < length b.pv
        → p < length b.pq
        → Runs F (variable_number z) (suc (n_bus z)) (suc (n_bus z)) 1 1 (var_real z b p)
    unfolding var_real
    var_real-Runs generation load =
        let (pv, at) = get_elem?-lt b.pv p generation in
        let (pq, at') = get_elem?-lt b.pq p load in
        let row =
          Runs-cell (Runs-set_b (F.plus (per_unit F (F.neg pv.0)) (load_of F pq.0)))
            Runs-advance_row (omega arith) in
        let loaded =
          Runs-lift (pair_at b.pq p)
            (λ pq. set_b (F.plus (per_unit F (F.neg pv.0)) (load_of F pq.0)) >> advance) pq 1 1
            (rw (at') refl) row in
        Runs-cell (Runs-set_a _ _ (omega arith))
          (Runs-lift (pair_at b.pv p)
            (λ pv. (lift (pair_at b.pq p)) >>= λ pq.
              set_b (F.plus (per_unit F (F.neg pv.0)) (load_of F pq.0)) >> advance)
            pv 1 1 (rw (at) refl) loaded)
          (omega arith)

    module _ (far : z.nbus_abc * (3 + p) + b.idx < z.nbus_abc * 6) where
      pub watt_reactive-Runs :
          p < length b.pq
          → Runs F (variable_number z) (suc (n_bus z)) (suc (n_bus z)) 1 1 (watt_reactive z b p)
      unfolding watt_reactive
      watt_reactive-Runs load =
          let (pq, at) = get_elem?-lt b.pq p load in
          Runs-cell (Runs-set_a _ _ (omega arith))
            (Runs-lift (pair_at b.pq p) (λ pq. set_b (load_of F pq.1) >> advance) pq 1 1
              (rw (at) refl) (Runs-cell (Runs-set_b _) Runs-advance_row (omega arith)))
            (omega arith)

      pub var_reactive-Runs :
          p < length b.pq
          → Runs F (variable_number z) (suc (n_bus z)) (suc (n_bus z)) 1 1 (var_reactive z b p)
      unfolding var_reactive
      var_reactive-Runs load =
          let (pq, at) = get_elem?-lt b.pq p load in
          Runs-cell (Runs-set_a _ _ (omega arith))
            (Runs-cell (Runs-set_a _ _ (omega arith))
              (Runs-lift (pair_at b.pq p) (λ pq. set_b (load_of F pq.1) >> advance) pq 1 1
                (rw (at) refl) (Runs-cell (Runs-set_b _) Runs-advance_row (omega arith)))
              (omega arith))
            (omega arith)

  module _ (z : Sizes) (b : AreaBus F) (primary : IsPrimaryBus z b) where
    watt_primary-Runs :
        Runs F (variable_number z) (suc (n_bus z)) (suc (n_bus z)) 6 6 (watt_primary z b)
    unfolding watt_primary
    watt_primary-Runs =
        let (inside, below, above, load, generation) = primary in
        Runs-rows (watt_real-Runs z b 0 (omega arith) (omega arith)) (
          Runs-rows (watt_real-Runs z b 1 (omega arith) (omega arith)) (
            Runs-rows (watt_real-Runs z b 2 (omega arith) (omega arith)) (
              Runs-cell (watt_limit-Runs z b 0 (omega arith) (omega arith))
                (Runs-cell (watt_limit-Runs z b 1 (omega arith) (omega arith))
                  (Runs-cell (watt_limit-Runs z b 2 (omega arith) (omega arith))
                    (Runs-rows (watt_reactive-Runs z b 0 (omega arith) (omega arith) (omega arith))
                      (Runs-rows
                        (watt_reactive-Runs z b 1 (omega arith) (omega arith) (omega arith))
                        (watt_reactive-Runs z b 2 (omega arith) (omega arith) (omega arith))))
                    (omega arith))
                  (omega arith))
                (omega arith))))

    var_primary-Runs :
        Runs F (variable_number z) (suc (n_bus z)) (suc (n_bus z)) 6 6 (var_primary z b)
    unfolding var_primary
    var_primary-Runs =
        let (inside, below, above, load, generation) = primary in
        Runs-rows (var_real-Runs z b 0 (omega arith) (omega arith) (omega arith)) (
          Runs-rows (var_real-Runs z b 1 (omega arith) (omega arith) (omega arith)) (
            Runs-rows (var_real-Runs z b 2 (omega arith) (omega arith) (omega arith)) (
              Runs-rows (var_reactive-Runs z b 0 (omega arith) (omega arith) (omega arith)) (
                Runs-rows (var_reactive-Runs z b 1 (omega arith) (omega arith) (omega arith)) (
                  Runs-rows (var_reactive-Runs z b 2 (omega arith) (omega arith) (omega arith)) (
                    Runs-cell (var_limit-Runs z b 0 (omega arith) (omega arith))
                      (Runs-cell (var_limit-Runs z b 1 (omega arith) (omega arith))
                        (var_limit-Runs z b 2 (omega arith) (omega arith)) (omega arith))
                      (omega arith)))))))

    pub watt_bus-Runs :
        Runs F (variable_number z) (suc (n_bus z)) (suc (n_bus z)) 6 6 (watt_bus z b)
    unfolding watt_bus
    watt_bus-Runs = rw (primary.2) watt_primary-Runs

    pub var_bus-Runs : Runs F (variable_number z) (suc (n_bus z)) (suc (n_bus z)) 6 6 (var_bus z b)
    unfolding var_bus
    var_bus-Runs = rw (primary.2) var_primary-Runs

  -- Rows for each bus but the source.
  pub unless_source-Runs :
      {n l : ℕ} (z : Sizes) (w : ℕ) (source_bus : String)
      (body : AreaBus F → Exec (Build F) (Unit {0}))
      → ((b : AreaBus F) → IsPrimaryBus z b → Runs F n l l w w (body b))
      → (bus_info : Dict (AreaBus F)) → All (λ p. IsPrimaryBus z p.1) bus_info
      → Runs F n l l
          (total (rows_unless w source_bus) bus_info)
          (total (rows_unless w source_bus) bus_info)
          (for_each bus_info (λ p. if str_eq p.0 source_bus then pure tt else body p.1))
  unless_source-Runs z w source_bus body h bus_info primary =
      Runs-for_each (rows_unless w source_bus) _ (λ p. IsPrimaryBus z p.1)
        (λ p fits. elim (Bool-cases (str_eq p.0 source_bus)) [
          | inl source ↦ rw (source) Runs-pure
          | inr other ↦ rw (other) (h p.1 fits)
        ])
        bus_info primary

  pub secondary_reactive-Runs :
      {n l : ℕ} (z : Sizes) (bus_info : Dict (AreaBus F))
      → All (λ p. IsPrimaryBus z p.1) bus_info
      → Runs F n l l 0 0 (for_each bus_info (λ p. secondary_reactive z p.1))
  unfolding secondary_reactive
  secondary_reactive-Runs z [] primary = Runs-pure
  secondary_reactive-Runs z (p ∷ rest) primary =
      Runs-cell {need = 0} (rw (primary.0.1) Runs-pure) (secondary_reactive-Runs z rest primary.1)
        (omega arith)

  -- Each bus but the source has six rows in the two modes.
  abbrev pub injection_rows : ControlType → String → Dict (AreaBus F) → ℕ
  injection_rows watt source_bus bus_info = total (rows_unless 6 source_bus) bus_info
  injection_rows var source_bus bus_info = total (rows_unless 6 source_bus) bus_info
  injection_rows watt_var source_bus bus_info = 0

  bind_limits-Runs : {n l : ℕ} (z : Sizes) → Runs F n l (suc (n_bus z)) 0 0 (bind_limits {F = F} z)
  bind_limits-Runs z = record {
    runs = λ s width limits room. (
      record s { limits = some (replicate (n_bus z) (F.from_ℕ 0)) },
      refl,
      ap suc (length-replicate (n_bus z) (F.from_ℕ 0)),
      (omega arith, refl, refl, λ r c before. refl),
    );
  }

  pub injections-Runs :
      (control : ControlType) (z : Sizes) (bus_info : Dict (AreaBus F)) (source_bus : String)
      → All (λ p. IsPrimaryBus z p.1) bus_info
      → Runs F
          (variable_number z)
          0
          (limits_of control z)
          (injection_rows control source_bus bus_info)
          (injection_rows control source_bus bus_info)
          (injections control z bus_info source_bus)
  unfolding injections
  injections-Runs watt z bus_info source_bus primary =
      Runs-cell (bind_limits-Runs z)
        (unless_source-Runs z 6 source_bus (watt_bus z) (λ b fits. watt_bus-Runs z b fits) bus_info
          primary)
        (omega arith)
  injections-Runs var z bus_info source_bus primary =
      Runs-cell (bind_limits-Runs z)
        (unless_source-Runs z 6 source_bus (var_bus z) (λ b fits. var_bus-Runs z b fits) bus_info
          primary)
        (omega arith)
  injections-Runs watt_var z bus_info source_bus primary = Runs-pure
