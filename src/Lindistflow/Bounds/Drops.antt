-- ===== src/Lindistflow/Bounds/Drops.antt =====
-- The equations of the voltage drops in a network that is all primary: their rows and columns.
use sgidal_example.Prelude.{
  length, All, or_raise, Dict, mem, key_error, ok, ℕ, suc, ◌+◌, ◌*◌, ◌≤◌, ◌<◌, String, ◌≡◌, refl,
  false, some, List, [], ◌∷◌, arith,
}
use sgidal_example.Prelude.Exec.{◌>>◌}
use sgidal_example.Floats.{Floats}
use sgidal_example.Area.{AreaBranch, secondary_model}
use sgidal_example.Lindistflow.Build.{Sizes, variable_number, advance}
use sgidal_example.Lindistflow.Drop.{
  Coefficients, Triangle, triangle, phase_a, phase_b, phase_c, voltage_cons_pri, branch_rows,
  branch_drop, primary_drops, secondary_drop, secondary_drops, source_voltage,
}
use sgidal_example.Lindistflow.Bounds.{
  Runs, Runs-pure, Runs-set_a, Runs-set_b, Runs-append_v_lim, Runs-cell, Runs-next, Runs-rows,
  Runs-cast, Runs-advance_row, Runs-lift,
}

module _ {F : Floats} where
  -- A branch between buses that are numbered below the count, with a matrix of three phases.
  abbrev pub IsPrimaryBranch : Sizes → String × AreaBranch F → Type 0
  IsPrimaryBranch z p =
      (mem p.1.kind secondary_model ≡ false)
      × (p.1.from < z.nbus_abc)
      × (p.1.to < z.nbus_abc)
      × ((m : List (List (F.Float × F.Float))) × (t : Triangle F) × (p.1.zprim ≡ some m)
          × (triangle {F = F} m ≡ ok t))

  module _ (z : Sizes) (base_z : F.Float) (l : ℕ) where
    voltage_cons_pri-Runs :
        (p frm to : ℕ) (c : Coefficients F)
        → p < z.nbranch_abc
        → frm < z.nbus_abc * 3
        → to < z.nbus_abc * 3
        → Runs F (variable_number z) l l 1 0 (voltage_cons_pri z base_z p frm to c)
    unfolding voltage_cons_pri
    voltage_cons_pri-Runs p frm to c h h' h'' =
        Runs-cell (Runs-set_a frm _ (omega arith))
          (Runs-cell (Runs-set_a to _ (omega arith))
            (Runs-cell (Runs-set_a _ _ (omega arith))
              (Runs-cell (Runs-set_a _ _ (omega arith))
                (Runs-cell (Runs-set_a _ _ (omega arith))
                  (Runs-cell (Runs-set_a _ _ (omega arith))
                    (Runs-cell (Runs-set_a _ _ (omega arith))
                      (Runs-cell (Runs-set_a _ _ (omega arith)) (Runs-set_b _) (omega arith))
                      (omega arith))
                    (omega arith))
                  (omega arith))
                (omega arith))
              (omega arith))
            (omega arith))
          (omega arith)

    drop_row-Runs :
        (p frm to : ℕ) (c : Coefficients F)
        → p < z.nbranch_abc
        → frm < z.nbus_abc * 3
        → to < z.nbus_abc * 3
        → Runs F (variable_number z) l l 1 1 (voltage_cons_pri z base_z p frm to c >> advance)
    drop_row-Runs p frm to c h h' h'' =
        Runs-cell (voltage_cons_pri-Runs p frm to c h h' h'') Runs-advance_row (omega arith)

    branch_rows-Runs :
        (idx : ℕ) (b : AreaBranch F) (t : Triangle F)
        → idx < z.nbranch_abc
        → b.from < z.nbus_abc
        → b.to < z.nbus_abc
        → Runs F (variable_number z) l l 3 3 (branch_rows z base_z idx b t)
    unfolding branch_rows
    branch_rows-Runs idx b t inside from to =
        Runs-cell (voltage_cons_pri-Runs idx _ _ (phase_a t) inside (omega arith) (omega arith))
          (Runs-next (
            Runs-cell (voltage_cons_pri-Runs idx _ _ (phase_b t) inside (omega arith) (omega arith))
              (Runs-next (drop_row-Runs idx _ _ (phase_c t) inside (omega arith) (omega arith)))
              (omega arith)))
          (omega arith)

    branch_drop-Runs :
        (idx : ℕ) (p : String × AreaBranch F)
        → idx < z.nbranch_abc
        → IsPrimaryBranch z p
        → Runs F (variable_number z) l l 3 3 (branch_drop z base_z idx p.1)
    unfolding branch_drop
    branch_drop-Runs idx p inside (primary, from, to, (m, t, matrix, whole)) =
        let rows = branch_rows-Runs idx p.1 t inside from to in
        let whole_rows =
          Runs-lift (triangle {F = F} m) (branch_rows z base_z idx p.1) t 3 3 whole rows in
        rw (primary) (
          Runs-lift (or_raise p.1.zprim key_error) _ m 3 3 (rw (matrix) refl) (
            Runs-cell (Runs-append_v_lim p.1.from)
              (Runs-cell (Runs-append_v_lim p.1.to) whole_rows (omega arith)) (omega arith)))

    pub primary_drops-Runs :
        (idx : ℕ) (branches : Dict (AreaBranch F))
        → idx + length branches ≤ z.nbranch_abc
        → All (IsPrimaryBranch z) branches
        → Runs F
            (variable_number z)
            l
            l
            (3 * length branches)
            (3 * length branches)
            (primary_drops z base_z idx branches)
    unfolding primary_drops
    primary_drops-Runs idx [] inside primary = Runs-cast Runs-pure (omega arith)
    primary_drops-Runs idx (p ∷ rest) inside primary =
        Runs-cast
          (Runs-rows (branch_drop-Runs idx p (omega arith) primary.0)
            (primary_drops-Runs (suc idx) rest (omega arith) primary.1))
          (omega arith)

    pub secondary_drops-Runs :
        (idx : ℕ) (branches : Dict (AreaBranch F))
        → All (IsPrimaryBranch z) branches
        → Runs F (variable_number z) l l 0 0 (secondary_drops z base_z idx branches)
    unfolding secondary_drops secondary_drop
    secondary_drops-Runs idx [] primary = Runs-pure
    secondary_drops-Runs idx (p ∷ rest) primary =
        Runs-cell {need = 0} (rw (primary.0.0) Runs-pure)
          (secondary_drops-Runs (suc idx) rest primary.1) (omega arith)

    pub source_voltage-Runs :
        (idx : ℕ)
        → idx < z.nbus_abc
        → Runs F (variable_number z) l l 3 3 (source_voltage {F = F} z idx)
    unfolding source_voltage
    source_voltage-Runs idx inside =
        Runs-cell (Runs-set_a _ _ (omega arith))
          (Runs-cell (Runs-set_b _)
            (Runs-next (
              Runs-cell (Runs-set_a _ _ (omega arith))
                (Runs-cell (Runs-set_b _)
                  (Runs-next (
                    Runs-cell (Runs-set_a _ _ (omega arith))
                      (Runs-cell (Runs-set_b _) Runs-advance_row (omega arith)) (omega arith)))
                  (omega arith))
                (omega arith)))
            (omega arith))
          (omega arith)
