-- ===== src/Lindistflow/Drop.antt =====
-- Constraints 2 and 3 of `optimal_power_flow`: the drop of voltage along each branch, and the voltage
-- of the source.
use sgidal_example.Prelude.{
  if◌then◌else◌, get_elem?, or_raise, Result, Dict, mem, sub_ℕ, offset, ℤ, pos, key_error,
  index_error, type_error, ok, ℕ, suc, ◌+◌, ◌*◌, List, [], ◌∷◌, str_eq,
}
use sgidal_example.Prelude
use sgidal_example.Prelude.Exec.{Exec, pure, throw, lift, ◌>>=◌, ◌>>◌}
use sgidal_example.Floats.{Floats}
use sgidal_example.Area.{AreaBranch, secondary_model}
use sgidal_example.Lindistflow.Build.{
  Sizes, Build, voltage_count, set_a, set_b, advance, append_v_lim, one, minus_one,
}

-- A pair of a resistance and a reactance.
abbrev pub Impedance : Floats → Type 0
Impedance F = F.Float × F.Float

-- The six coefficients of a phase, by the phase whose power they multiply.
pub record Coefficients (F : Floats) : Type 0 where
  pub own : Impedance F
  pub next : Impedance F
  pub last : Impedance F

-- An argument of a call.
pub data Argument (F : Floats) : Type 0 where
  index : ℤ → Argument F
  number : F.Float → Argument F

-- `z[i, j]`
unfoldable pub z_at : {A : Type 0} → List (List A) → ℕ → ℕ → Result A
z_at z i j =
    Prelude.◌>>=◌ (or_raise (get_elem? z i) index_error)
      (λ row. or_raise (get_elem? row j) index_error)

-- `val_br[…] - nbus_ABC + nbus_ABC * 3`
abbrev secondary_column : Sizes → ℕ → ℤ
secondary_column z place = sub_ℕ (place + z.nbus_abc * 3) z.nbus_abc

module _ (F : Floats) where
  abbrev sqrt_3 : F.Float
  sqrt_3 = F.sqrt (F.from_ℕ 3)

  -- `-2 * z[0], -2 * z[1]`
  unfoldable pub own_part : Impedance F → Impedance F
  own_part z = (F.times (F.neg (F.from_ℕ 2)) z.0, F.times (F.neg (F.from_ℕ 2)) z.1)

  -- `-2 * z / zbase`, with `zbase = 120.0 * 120.0 / 15000`
  abbrev secondary_impedance : F.Float → F.Float
  secondary_impedance x =
      F.over (F.times (F.neg (F.from_ℕ 2)) x)
        (F.over (F.times (F.from_ℕ 120) (F.from_ℕ 120)) (F.from_ℕ 15000))

  -- `-(-r + sqrt(3) * x), -(-x' - sqrt(3) * r')`: the phase that follows.
  unfoldable pub ahead : F.Float → F.Float → F.Float → F.Float → Impedance F
  ahead r x x' r' =
      (F.neg (F.plus (F.neg r) (F.times sqrt_3 x)), F.neg (F.minus (F.neg x') (F.times sqrt_3 r')))

  -- `-(-r - sqrt(3) * x), -(-x' + sqrt(3) * r')`: the phase that goes before.
  unfoldable pub behind : F.Float → F.Float → F.Float → F.Float → Impedance F
  behind r x x' r' =
      (F.neg (F.minus (F.neg r) (F.times sqrt_3 x)), F.neg (F.plus (F.neg x') (F.times sqrt_3 r')))

-- The upper triangle of a branch's matrix.
pub record Triangle (F : Floats) : Type 0 where
  pub z00 : Impedance F
  pub z01 : Impedance F
  pub z02 : Impedance F
  pub z11 : Impedance F
  pub z12 : Impedance F
  pub z22 : Impedance F

unfoldable pub triangle : {F : Floats} → List (List (Impedance F)) → Result (Triangle F)
triangle z = Prelude.◌>>=◌ (z_at z 0 0) (λ z00. Prelude.◌>>=◌ (z_at z 0 1) (λ z01.
    Prelude.◌>>=◌ (z_at z 0 2) (λ z02. Prelude.◌>>=◌ (z_at z 1 1) (λ z11.
      Prelude.◌>>=◌ (z_at z 1 2) (λ z12. Prelude.◌>>=◌ (z_at z 2 2) (λ z22.
        ok (record { z00 = z00; z01 = z01; z02 = z02; z11 = z11; z12 = z12; z22 = z22 })))))))

module _ {F : Floats} where
  -- The coefficients of phases A, B and C, in the order a, b, c. The reactance of phase C towards b is
  -- taken from `z[0, 2]`.
  unfoldable pub phase_a : Triangle F → Coefficients F
  phase_a t = record {
    own = own_part F t.z00;
    next = ahead F t.z01.0 t.z01.1 t.z01.1 t.z01.0;
    last = behind F t.z02.0 t.z02.1 t.z02.1 t.z02.0;
  }

  unfoldable pub phase_b : Triangle F → Coefficients F
  phase_b t = record {
    own = behind F t.z01.0 t.z01.1 t.z01.1 t.z01.0;
    next = own_part F t.z11;
    last = ahead F t.z12.0 t.z12.1 t.z12.1 t.z12.0;
  }

  unfoldable pub phase_c : Triangle F → Coefficients F
  phase_c t = record {
    own = ahead F t.z02.0 t.z02.1 t.z02.1 t.z02.0;
    next = behind F t.z12.0 t.z12.1 t.z02.1 t.z12.0;
    last = own_part F t.z22;
  }

  -- `p` is the place of the branch, `frm` and `to` the columns of the two voltages.
  unfoldable pub voltage_cons_pri :
      Sizes → F.Float → ℕ → ℕ → ℕ → Coefficients F → Exec (Build F) (Unit {0})
  voltage_cons_pri z base_z p frm to c =
      let first = p + voltage_count z in
      do
        set_a (pos frm) (one F)
        set_a (pos to) (minus_one F)
        set_a (pos (first + z.nbranch_abc * 0)) (F.over c.own.0 base_z)
        set_a (pos (first + z.nbranch_abc * 1)) (F.over c.next.0 base_z)
        set_a (pos (first + z.nbranch_abc * 2)) (F.over c.last.0 base_z)
        set_a (pos (first + z.nbranch_abc * 3)) (F.over c.own.1 base_z)
        set_a (pos (first + z.nbranch_abc * 4)) (F.over c.next.1 base_z)
        set_a (pos (first + z.nbranch_abc * 5)) (F.over c.last.1 base_z)
        set_b (F.from_ℕ 0)

  -- The three equations of a branch.
  unfoldable pub branch_rows :
      Sizes → F.Float → ℕ → AreaBranch F → Triangle F → Exec (Build F) (Unit {0})
  branch_rows z base_z idx b t = do
    voltage_cons_pri z base_z idx b.from b.to (phase_a t)
    advance
    voltage_cons_pri z base_z idx (z.nbus_abc + b.from) (z.nbus_abc + b.to) (phase_b t)
    advance
    voltage_cons_pri z base_z idx (z.nbus_abc * 2 + b.from) (z.nbus_abc * 2 + b.to) (phase_c t)
    advance

  -- The body of the loop for the primary.
  unfoldable pub branch_drop : Sizes → F.Float → ℕ → AreaBranch F → Exec (Build F) (Unit {0})
  branch_drop z base_z idx b = if mem b.kind secondary_model then pure tt else do
    zprim ← lift (or_raise b.zprim key_error)
    append_v_lim b.from
    append_v_lim b.to
    t ← lift (triangle {F = F} zprim)
    branch_rows z base_z idx b t

  unfoldable pub primary_drops :
      Sizes → F.Float → ℕ → Dict (AreaBranch F) → Exec (Build F) (Unit {0})
  primary_drops z base_z idx [] = pure tt
  primary_drops z base_z idx (p ∷ rest) =
      let others = primary_drops z base_z (suc idx) rest in branch_drop z base_z idx p.1 >> others

  -- `A`, `b` and `counteq` are the arrays and their next row; the other seven parameters are matched
  -- in order, and any other number of arguments is Python's `TypeError`.
  unfoldable pub voltage_cons_sec : Sizes → List (Argument F) → Exec (Build F) (Unit {0})
  voltage_cons_sec z
        (index p
          ∷ index frm
          ∷ index to
          ∷ number p_pri
          ∷ number q_pri
          ∷ number p_sec
          ∷ number q_sec
          ∷ []) =
      let n_flow_s1s2 = voltage_count z + z.nbranch_abc * 6 in
      let half = F.literal 5 10 in
      do
        set_a frm (one F)
        set_a to (minus_one F)
        set_a (offset n_flow_s1s2 p) (F.plus p_pri (F.times half p_sec))
        set_a (offset (n_flow_s1s2 + z.nbranch_s1s2) p) (F.plus q_pri (F.times half q_sec))
        set_b (F.from_ℕ 0)
  voltage_cons_sec z _ = throw type_error

  -- The body of the loop for the secondary. A split phase reads `impedance1`, a key that no branch of
  -- `area_info` has. The call for a triplex line gives `voltage_cons_sec` its seven arguments and four
  -- more.
  unfoldable pub secondary_drop : Sizes → F.Float → ℕ → AreaBranch F → Exec (Build F) (Unit {0})
  secondary_drop z base_z idx b =
      if mem b.kind secondary_model
      then (if str_eq b.kind "SPLIT_PHASE"
          then (lift (or_raise b.impedance key_error) >>= λ zp. throw key_error)
          else do
            zp ← lift (or_raise b.impedance key_error)
            append_v_lim b.from
            append_v_lim b.to
            first ← lift (z_at zp 0 0)
            voltage_cons_sec z (
                index (sub_ℕ idx z.nbranch_abc)
                ∷ index (secondary_column z b.from)
                ∷ index (secondary_column z b.to)
                ∷ number (F.from_ℕ 0)
                ∷ number (F.from_ℕ 0)
                ∷ number (secondary_impedance F first.0)
                ∷ number (secondary_impedance F first.1)
                ∷ index (pos z.nbus_abc)
                ∷ index (pos z.nbus_s1s2)
                ∷ index (pos z.nbranch_abc)
                ∷ number base_z
                ∷ [])
            advance)
      else pure tt

  unfoldable pub secondary_drops :
      Sizes → F.Float → ℕ → Dict (AreaBranch F) → Exec (Build F) (Unit {0})
  secondary_drops z base_z idx [] = pure tt
  secondary_drops z base_z idx (p ∷ rest) =
      let others = secondary_drops z base_z (suc idx) rest in
      secondary_drop z base_z idx p.1 >> others

  unfoldable pub source_voltage : Sizes → ℕ → Exec (Build F) (Unit {0})
  source_voltage z source_bus_idx = do
    set_a (pos source_bus_idx) (one F)
    set_b (F.times (F.literal 104 100) (F.literal 104 100))
    advance
    set_a (pos (source_bus_idx + z.nbus_abc)) (one F)
    set_b (F.times (F.literal 104 100) (F.literal 104 100))
    advance
    set_a (pos (source_bus_idx + z.nbus_abc * 2)) (one F)
    set_b (F.times (F.literal 104 100) (F.literal 104 100))
    advance
