-- ===== src/Lindistflow/Conserved.antt =====
-- The row that `power_balance` writes.
use sgidal_example.Prelude.{
  ◌==◌, if◌then◌else◌, All, ℤ, pos, negsuc, ok, ℕ, ◌+◌, ◌≤◌, ◌<◌, ◌≡◌, refl, ◌∙◌, Bool, false, ◌||◌,
  List, [], ◌∷◌, arith,
}
use sgidal_example.Prelude.Exec.{Exec, ◌>>◌}
use sgidal_example.Floats.{Floats}
use sgidal_example.Lindistflow.Build.{Build, set_a, set_b, cell_at, rhs_at, one, minus_one}
use sgidal_example.Lindistflow.Balance.{set_all, power_balance}
use sgidal_example.Lindistflow.Bounds.{axis_index-pos, then_ok}
use sgidal_example.Lindistflow.Bounds.Flow.{IsPlace}

-- The column is one of those of the places.
abbrev pub reaches : ℕ → ℕ → List ℤ → Bool
reaches col c [] = false
reaches col c (pos i ∷ ks) = col + i == c || reaches col c ks
reaches col c (negsuc i ∷ ks) = reaches col c ks

-- The coefficient of a column: what is injected and what leaves has -1, what enters 1.
abbrev pub flow_coefficient : (F : Floats) → List ℤ → List ℤ → ℕ → ℕ → ℕ → F.Float → F.Float
flow_coefficient F frm to col val c before =
    if val == c
    then minus_one F
    else if reaches col c to
    then one F
    else if reaches col c frm
    then minus_one F
    else before

module _ {F : Floats} where
  -- A cell of the row that is next is written.
  abbrev written : ℕ → F.Float → Build F → Build F
  written c v s = record s { a_cells = (s.counteq, c, v) ∷ s.a_cells }

  abbrev write_all : ℕ → F.Float → List ℤ → Build F → Build F
  write_all col v [] s = s
  write_all col v (pos i ∷ ks) s = write_all col v ks (written (col + i) v s)
  write_all col v (negsuc i ∷ ks) s = write_all col v ks s

  set_a-written :
      (c : ℕ) (v : F.Float) (s : Build F)
      → s.counteq < s.rows
      → c < s.cols
      → set_a {F = F} (pos c) v s ≡ (ok tt, written c v s)
  unfolding set_a
  set_a-written c v s room inside =
      let row = axis_index-pos s.rows s.counteq room in
      let at = axis_index-pos s.cols c inside in rw (row, at) refl

  set_b-written :
      (v : F.Float) (s : Build F)
      → s.counteq < s.rows
      → set_b {F = F} v s ≡ (ok tt, record s { b_cells = (s.counteq, v) ∷ s.b_cells })
  unfolding set_b
  set_b-written v s room = let row = axis_index-pos s.rows s.counteq room in rw (row) refl

  -- Only cells change.
  abbrev SameShape : Build F → Build F → Type 0
  SameShape s t = (t.counteq ≡ s.counteq) × (t.rows ≡ s.rows) × (t.cols ≡ s.cols)

  write_all-SameShape :
      (col : ℕ) (v : F.Float) (ks : List ℤ) (s : Build F) → SameShape s (write_all col v ks s)
  write_all-SameShape col v [] s = (refl, refl, refl)
  write_all-SameShape col v (pos i ∷ ks) s = write_all-SameShape col v ks (written (col + i) v s)
  write_all-SameShape col v (negsuc i ∷ ks) s = write_all-SameShape col v ks s

  set_all-write_all :
      (col m : ℕ) (v : F.Float) (ks : List ℤ) (s : Build F)
      → s.counteq < s.rows
      → All (IsPlace m) ks
      → col + m ≤ s.cols
      → set_all {F = F} col v ks s ≡ (ok tt, write_all col v ks s)
  unfolding set_all
  set_all-write_all col m v [] s room h p = refl
  set_all-write_all col m v (pos i ∷ ks) s room h p =
      then_ok (set_a (pos (col + i)) v) (set_all col v ks) s (written (col + i) v s)
        (set_a-written (col + i) v s room (omega (arith, h.0)))
      ∙ set_all-write_all col m v ks (written (col + i) v s) room h.1 p
  set_all-write_all col m v (negsuc i ∷ ks) s room h p = absurd h.0

  cell_at-write_all :
      (col c : ℕ) (v : F.Float) (ks : List ℤ) (s : Build F)
      → cell_at F (write_all col v ks s).a_cells s.counteq c
        ≡ (if reaches col c ks then v else cell_at F s.a_cells s.counteq c)
  cell_at-write_all col c v [] s = refl
  cell_at-write_all col c v (pos i ∷ ks) s =
      let later = cell_at-write_all col c v ks (written (col + i) v s) in ground (arith, later)
  cell_at-write_all col c v (negsuc i ∷ ks) s = cell_at-write_all col c v ks s

  -- `power_balance` writes one row and stays at it: -1 for the injection and for each branch that
  -- leaves, 1 for each that enters, the other cells as they were, and 0 on the right.
  pub power_balance-flow_coefficient :
      (frm to : List ℤ) (col m val : ℕ) (s : Build F)
      → s.counteq < s.rows
      → All (IsPlace m) frm
      → All (IsPlace m) to
      → col + m ≤ s.cols
      → val < s.cols
      → (t : Build F) × (power_balance {F = F} frm to col val s ≡ (ok tt, t))
        × (t.counteq ≡ s.counteq)
        × (rhs_at F t.b_cells s.counteq ≡ F.from_ℕ 0)
        × ((c : ℕ)
            → cell_at F t.a_cells s.counteq c
              ≡ flow_coefficient F frm to col val c (cell_at F s.a_cells s.counteq c))
  unfolding power_balance
  power_balance-flow_coefficient frm to col m val s room leave enter fits inside =
      let enter_all : Exec (Build F) (Unit {0}) = set_all col (one F) to in
      let inject : Exec (Build F) (Unit {0}) = set_a (pos val) (minus_one F) in
      let balance : Exec (Build F) (Unit {0}) = set_b (F.from_ℕ 0) in
      let left = write_all col (minus_one F) frm s in
      let entered = write_all col (one F) to left in
      let injected = written val (minus_one F) entered in
      let shape = write_all-SameShape col (minus_one F) frm s in
      let shape' = write_all-SameShape col (one F) to left in
      let leaves = set_all-write_all col m (minus_one F) frm s room leave fits in
      let enters = set_all-write_all col m (one F) to left (omega arith) enter (omega arith) in
      let injects = set_a-written val (minus_one F) entered (omega arith) (omega arith) in
      let right = set_b-written (F.from_ℕ 0) injected (omega arith) in
      (
        record injected { b_cells = (injected.counteq, F.from_ℕ 0) ∷ injected.b_cells },
        then_ok (set_all col (minus_one F) frm) (enter_all >> (inject >> balance)) s left leaves
            ∙ then_ok enter_all (inject >> balance) left entered enters
            ∙ then_ok inject balance entered injected injects
            ∙ right,
        shape'.0 ∙ shape.0,
        ground (arith, shape, shape'),
        λ c.
            let cells = cell_at-write_all col c (minus_one F) frm s in
            let cells' = cell_at-write_all col c (one F) to left in
            ground (arith, shape, shape', cells, cells'),
      )
