-- ===== src/Lindistflow/Bounds/Flow.antt =====
-- The equations of flow in a network that is all primary: their rows and columns.
use sgidal_example.Prelude.{
  ◌==◌, if◌then◌else◌, Bool-cases, length, All, Dict, ℤ, pos, negsuc, ok, ℕ, suc, ◌+◌, ◌*◌, ◌≤◌,
  ◌<◌, String, ◌≡◌, refl, sym, subst, inl, inr, true, false, List, [], ◌∷◌, ◌++◌, arith, str_eq,
}
use sgidal_example.Floats.{Floats}
use sgidal_example.Area.{AreaBus, AreaBranch}
use sgidal_example.Lindistflow.Build.{Sizes, voltage_count, variable_number}
use sgidal_example.Lindistflow.Balance.{
  Lines, no_lines, is_primary, set_all, power_balance, leaving_line, entering_line, primary_lines,
  phase_balance, primary_balance, bus_balance, flow_constraints,
}
use sgidal_example.Lindistflow.Bounds.{
  total, Runs-pure, Runs, Runs-set_a, Runs-set_b, Runs-cell, Runs-rows, Runs-pure_row,
  Runs-advance_row, Runs-lift, Runs-for_each,
}

-- A place below `n`.
abbrev pub IsPlace : ℕ → ℤ → Type 0
IsPlace n (pos i) = i < n
IsPlace n (negsuc i) = ⊥

-- Lines between buses of the primary only.
pub record HasNoSecondary (l : Lines) : Type 0 where
  pub pa : l.k_frm_1pa ≡ []
  pub pb : l.k_frm_1pb ≡ []
  pub pc : l.k_frm_1pc ≡ []
  pub qa : l.k_frm_1qa ≡ []
  pub qb : l.k_frm_1qb ≡ []
  pub qc : l.k_frm_1qc ≡ []

abbrev pub ArePlaced : ℕ → Lines → Type 0
ArePlaced n l = All (IsPlace n) l.k_frm_3p × All (IsPlace n) l.k_to_3p × HasNoSecondary l

All-append :
    {A : Type 0} (P : A → Type 0) (xs : List A) (y : A) → All P xs → P y → All P (xs ++ y ∷ [])
All-append P [] y h p = (p, tt)
All-append P (x ∷ xs) y h p = (h.0, All-append P xs y h.1 p)

All-append_nil :
    {A : Type 0} (P : A → Type 0) (xs ys : List A) → ys ≡ [] → All P xs → All P (xs ++ ys)
All-append_nil P [] ys e h = subst (All P) (sym e) tt
All-append_nil P (x ∷ xs) ys e h = (h.0, All-append_nil P xs ys e h.1)

module _ {F : Floats} where
  -- Both ends of a branch are buses of the primary.
  abbrev pub JoinsPrimary : Dict (AreaBus F) → String × AreaBranch F → Type 0
  JoinsPrimary bus_info p =
      (is_primary p.1.fr_bus bus_info ≡ ok true) × (is_primary p.1.to_bus bus_info ≡ ok true)

  -- A bus of the primary that is numbered below the count.
  abbrev pub IsPrimaryBus : Sizes → AreaBus F → Type 0
  IsPrimaryBus z b =
      (b.idx < z.nbus_abc)
      × (F.lt b.kv (F.literal 12 100) ≡ false)
      × (F.lt (F.literal 12 100) b.kv ≡ true)
      × (length b.pq ≡ 3)
      × (length b.pv ≡ 3)

  -- `w` rows for each bus but the source.
  abbrev pub rows_unless : ℕ → String → String × AreaBus F → ℕ
  rows_unless w source_bus p = if str_eq p.0 source_bus then 0 else w

  module _ {n l : ℕ} where
    set_all-Runs :
        (col m : ℕ) (v : F.Float) (ks : List ℤ)
        → All (IsPlace m) ks
        → col + m ≤ n
        → Runs F n l l 1 0 (set_all {F = F} col v ks)
    unfolding set_all
    set_all-Runs col m v [] h p = Runs-pure_row
    set_all-Runs col m v (pos i ∷ ks) h p =
        Runs-cell (Runs-set_a (col + i) v (omega (arith, h.0))) (set_all-Runs col m v ks h.1 p)
          (omega arith)
    set_all-Runs col m v (negsuc i ∷ ks) h p = absurd h.0

    power_balance-Runs :
        (frm to : List ℤ) (col m val : ℕ)
        → All (IsPlace m) frm
        → All (IsPlace m) to
        → col + m ≤ n
        → val < n
        → Runs F n l l 1 0 (power_balance {F = F} frm to col val)
    unfolding power_balance
    power_balance-Runs frm to col m val h h' p q =
        Runs-cell (set_all-Runs col m _ frm h p)
          (Runs-cell (set_all-Runs col m _ to h' p)
            (Runs-cell (Runs-set_a val _ q) (Runs-set_b _) (omega arith)) (omega arith))
          (omega arith)

  module _ (z : Sizes) (bus_info : Dict (AreaBus F)) (idx : ℕ) where
    leaving_line-placed :
        (ind : ℕ) (p : String × AreaBranch F) (l : Lines)
        → ind < z.nbranch_abc
        → JoinsPrimary bus_info p
        → ArePlaced z.nbranch_abc l
        → (l' : Lines) × (leaving_line z bus_info idx ind p l ≡ ok l') × ArePlaced z.nbranch_abc l'
    unfolding leaving_line
    leaving_line-placed ind p l inside joins placed =
        let (frm, to, o) = placed in
        elim (Bool-cases (idx == p.1.from)) [
          | inl at ↦ (
            record l { k_frm_3p = l.k_frm_3p ++ pos ind ∷ [] },
            rw (at, joins.1) refl,
            (
              All-append _ l.k_frm_3p (pos ind) frm inside,
              to,
              record { pa = o.pa; pb = o.pb; pc = o.pc; qa = o.qa; qb = o.qb; qc = o.qc },
            ),
          )
          | inr off ↦ (l, rw (off) refl, placed)
        ]

    entering_line-placed :
        (ind : ℕ) (p : String × AreaBranch F) (l : Lines)
        → ind < z.nbranch_abc
        → JoinsPrimary bus_info p
        → ArePlaced z.nbranch_abc l
        → (l' : Lines) × (entering_line z bus_info idx ind p l ≡ ok l') × ArePlaced z.nbranch_abc l'
    unfolding entering_line
    entering_line-placed ind p l inside joins placed =
        let (frm, to, o) = placed in
        elim (Bool-cases (idx == p.1.to)) [
          | inl at ↦ (
            record l { k_to_3p = l.k_to_3p ++ pos ind ∷ [] },
            rw (at, joins.0) refl,
            (
              frm,
              All-append _ l.k_to_3p (pos ind) to inside,
              record { pa = o.pa; pb = o.pb; pc = o.pc; qa = o.qa; qb = o.qb; qc = o.qc },
            ),
          )
          | inr off ↦ (l, rw (off) refl, placed)
        ]

    primary_lines-placed :
        (ind : ℕ) (branches : Dict (AreaBranch F)) (l : Lines)
        → ind + length branches ≤ z.nbranch_abc
        → All (JoinsPrimary bus_info) branches
        → ArePlaced z.nbranch_abc l
        → (l' : Lines) × (primary_lines z bus_info idx ind branches l ≡ ok l')
          × ArePlaced z.nbranch_abc l'
    unfolding primary_lines
    primary_lines-placed ind [] l inside joins placed = (l, refl, placed)
    primary_lines-placed ind (p ∷ rest) l inside joins placed =
        let (left, leaves, placed') = leaving_line-placed ind p l (omega arith) joins.0 placed in
        let (entered, enters, placed'') =
          entering_line-placed ind p left (omega arith) joins.0 placed' in
        let (lines, go, done) =
          primary_lines-placed (suc ind) rest entered (omega arith) joins.1 placed'' in
        (lines, rw (leaves, enters) go, done)

  phase_balance-Runs :
      {n l : ℕ} (z : Sizes) (idx loc first p : ℕ) (frm to single : List ℤ)
      → All (IsPlace z.nbranch_abc) frm
      → All (IsPlace z.nbranch_abc) to
      → single ≡ []
      → loc + z.nbranch_abc * p + z.nbranch_abc ≤ n
      → idx + z.nbus_abc * 3 + z.nbus_s1s2 + z.nbus_abc * (first + p) < n
      → Runs F n l l 1 1 (phase_balance {F = F} z idx loc first p (frm ++ single) to)
  phase_balance-Runs z idx loc first p frm to single h h' e inside at =
      Runs-cell
        (power_balance-Runs (frm ++ single) to _ z.nbranch_abc _ (All-append_nil _ frm single e h)
          h' inside at)
        Runs-advance_row (omega arith)

  module _ (z : Sizes) (branch_info : Dict (AreaBranch F)) (bus_info : Dict (AreaBus F)) (l : ℕ)
      (joins : All (JoinsPrimary bus_info) branch_info)
      (count : length branch_info ≤ z.nbranch_abc) where
    pub primary_balance-Runs :
        (idx : ℕ)
        → idx < z.nbus_abc
        → Runs F (variable_number z) l l 6 6 (primary_balance z branch_info bus_info idx)
    unfolding primary_balance
    primary_balance-Runs idx inside =
        let (lines, go, (frm, to, bare)) =
          primary_lines-placed z bus_info idx 0 branch_info no_lines (omega arith) joins
            (tt, tt, record { pa = refl; pb = refl; pc = refl; qa = refl; qb = refl; qc = refl }) in
        Runs-lift (primary_lines z bus_info idx 0 branch_info no_lines) _ lines 6 6 go (
          Runs-rows
            (phase_balance-Runs z idx (voltage_count z) 0 0 _ _ _ frm to bare.pa (omega arith)
              (omega arith))
            (Runs-rows
              (phase_balance-Runs z idx (voltage_count z) 0 1 _ _ _ frm to bare.pb (omega arith)
                (omega arith))
              (Runs-rows
                (phase_balance-Runs z idx (voltage_count z) 0 2 _ _ _ frm to bare.pc (omega arith)
                  (omega arith))
                (Runs-rows
                  (phase_balance-Runs z idx _ 3 0 _ _ _ frm to bare.qa (omega arith) (omega arith))
                  (Runs-rows
                    (phase_balance-Runs z idx _ 3 1 _ _ _ frm to bare.qb (omega arith)
                      (omega arith))
                    (phase_balance-Runs z idx _ 3 2 _ _ _ frm to bare.qc (omega arith)
                      (omega arith)))))))

    -- The rows of a bus: none for the source.
    pub flow_constraints-Runs :
        (source_bus : String)
        → All (λ p. IsPrimaryBus z p.1) bus_info
        → Runs F
            (variable_number z)
            l
            l
            (total (rows_unless 6 source_bus) bus_info)
            (total (rows_unless 6 source_bus) bus_info)
            (flow_constraints z branch_info bus_info source_bus)
    unfolding flow_constraints bus_balance
    flow_constraints-Runs source_bus primary =
        Runs-for_each (rows_unless 6 source_bus) _ (λ p. IsPrimaryBus z p.1)
          (λ p h. elim (Bool-cases (str_eq p.0 source_bus)) [
            | inl source ↦ rw (source) Runs-pure
            | inr other ↦ rw (other, h.1) (primary_balance-Runs p.1.idx h.0)
          ])
          bus_info primary
