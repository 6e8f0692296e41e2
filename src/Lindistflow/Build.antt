-- ===== src/Lindistflow/Build.antt =====
-- The arrays of the linear programme while they are filled.
use sgidal_example.Prelude.{
  ltb, ◌==◌, if◌then◌else◌, length, set, or_raise, Result, Dict, mem, ℤ, pos, negsuc, index_error,
  unbound_local_error, ok, raise, ℕ, ◌+◌, ◌-◌, ◌*◌, ◌&&◌, Option, none, some, List, [], ◌∷◌, ◌++◌,
}
use sgidal_example.Prelude.Exec.{Exec, lift, gets, modify, ◌>>=◌}
use sgidal_example.Floats.{Floats}
use sgidal_example.Area.{AreaBus, AreaBranch, secondary_model}

-- How many branches and buses of each of the two kinds there are.
pub record Sizes : Type 0 where
  pub nbranch_abc : ℕ
  pub nbranch_s1s2 : ℕ
  pub nbus_abc : ℕ
  pub nbus_s1s2 : ℕ

module _ {F : Floats} where
  unfoldable pub count_branches : Dict (AreaBranch F) → Sizes → Sizes
  count_branches [] z = z
  count_branches ((b_eq, b) ∷ rest) z = count_branches rest (
      if mem b.kind secondary_model
      then record z { nbranch_s1s2 = z.nbranch_s1s2 + 1 }
      else record z { nbranch_abc = z.nbranch_abc + 1 })

  unfoldable pub count_buses : Dict (AreaBus F) → Sizes → Sizes
  count_buses [] z = z
  count_buses ((b_eq, b) ∷ rest) z = count_buses rest (
      if F.lt (F.literal 12 100) b.kv
      then record z { nbus_abc = z.nbus_abc + 1 }
      else record z { nbus_s1s2 = z.nbus_s1s2 + 1 })

  unfoldable pub sizes_of : Dict (AreaBranch F) → Dict (AreaBus F) → Sizes
  sizes_of branch_info bus_info = count_buses bus_info (
      count_branches branch_info
        (record { nbranch_abc = 0; nbranch_s1s2 = 0; nbus_abc = 0; nbus_s1s2 = 0 }))

-- The numbers of variables and of constraints.
abbrev pub n_bus : Sizes → ℕ
n_bus z = z.nbus_abc * 3 + z.nbus_s1s2

abbrev pub n_branch : Sizes → ℕ
n_branch z = z.nbranch_abc * 3 + z.nbranch_s1s2

abbrev pub voltage_count : Sizes → ℕ
voltage_count z = (z.nbus_abc * 3 + z.nbus_s1s2) + (z.nbus_abc * 6 + z.nbus_s1s2 * 2)

abbrev pub injection_count : Sizes → ℕ
injection_count z = z.nbranch_abc * 6 + z.nbranch_s1s2 * 2

abbrev pub flow_count : Sizes → ℕ
flow_count z = z.nbus_abc * 3 + z.nbus_s1s2

abbrev pub der_count : Sizes → ℕ
der_count z = (z.nbus_abc * 3 + z.nbus_s1s2) + z.nbus_abc * 3 + z.nbus_s1s2

abbrev pub variable_number : Sizes → ℕ
variable_number z = voltage_count z + injection_count z + flow_count z + der_count z

abbrev pub constraint_number : Sizes → ℕ
constraint_number z = 1000 + variable_number z + n_bus z + 3 * n_bus z + n_branch z

-- Where the control variables of real and of reactive power start.
abbrev pub state_variable_number : Sizes → ℕ
state_variable_number z = n_bus z + 2 * n_bus z + 2 * n_branch z

abbrev pub n_qdg : Sizes → ℕ
n_qdg z = state_variable_number z + n_bus z

-- A matrix of zeros and its right-hand side while their rows are filled: what was written, newest
-- first, and the row that is next. `limits` is `DG_up_lim`, unbound at first; `v_lim` the list of buses
-- whose voltage is bounded.
pub record Build (F : Floats) : Type 0 where
  pub counteq : ℕ
  pub rows : ℕ
  pub cols : ℕ
  pub a_cells : List (ℕ × ℕ × F.Float)
  pub b_cells : List (ℕ × F.Float)
  pub v_lim : List ℕ
  pub limits : Option (List F.Float)

-- numpy's index into an axis of length `n`: a negative one counts from the end.
unfoldable pub axis_index : ℕ → ℤ → Result ℕ
axis_index n (pos i) = if ltb i n then ok i else raise index_error
axis_index n (negsuc i) = if ltb i n then ok (n - 1 - i) else raise index_error

module _ {F : Floats} where
  -- `np.zeros((constraint_number, variable_number))` and `np.zeros(constraint_number)`
  unfoldable pub zeros : Sizes → Build F
  zeros z = record {
    counteq = 0;
    rows = constraint_number z;
    cols = variable_number z;
    a_cells = [];
    b_cells = [];
    v_lim = [];
    limits = none;
  }

  -- `A[counteq, col] = v`
  unfoldable pub set_a : ℤ → F.Float → Exec (Build F) (Unit {0})
  set_a col v = do
    here ← gets (λ s. s.counteq)
    height ← gets (λ s. s.rows)
    width ← gets (λ s. s.cols)
    row ← lift (axis_index height (pos here))
    at ← lift (axis_index width col)
    modify (λ s. record s { a_cells = (row, at, v) ∷ s.a_cells })

  -- `b[counteq] = v`
  unfoldable pub set_b : F.Float → Exec (Build F) (Unit {0})
  set_b v = do
    here ← gets (λ s. s.counteq)
    height ← gets (λ s. s.rows)
    row ← lift (axis_index height (pos here))
    modify (λ s. record s { b_cells = (row, v) ∷ s.b_cells })

  -- `counteq += 1`
  abbrev pub advance : Exec (Build F) (Unit {0})
  advance = modify (λ s. record s { counteq = s.counteq + 1 })

  -- `v_lim.append(i)`
  abbrev pub append_v_lim : ℕ → Exec (Build F) (Unit {0})
  append_v_lim i = modify (λ s. record s { v_lim = s.v_lim ++ i ∷ [] })

  -- `DG_up_lim[i] = v`
  unfoldable pub set_limit : ℕ → F.Float → Exec (Build F) (Unit {0})
  set_limit i v = do
    old ← gets (λ s. s.limits)
    limits ← lift (or_raise old unbound_local_error)
    at ← lift (axis_index (length limits) (pos i))
    modify (λ s. record s { limits = some (set limits at v) })

-- What stands in the matrix at a row and a column: the newest value that was written, else 0.
abbrev pub cell_at : (F : Floats) → List (ℕ × ℕ × F.Float) → ℕ → ℕ → F.Float
cell_at F [] r c = F.from_ℕ 0
cell_at F ((i, j, v) ∷ rest) r c = if i == r && j == c then v else cell_at F rest r c

abbrev pub rhs_at : (F : Floats) → List (ℕ × F.Float) → ℕ → F.Float
rhs_at F [] r = F.from_ℕ 0
rhs_at F ((i, v) ∷ rest) r = if i == r then v else rhs_at F rest r

-- The numbers 1, -1 and 2 as they stand in a float array.
abbrev pub one : (F : Floats) → F.Float
one F = F.from_ℕ 1

abbrev pub minus_one : (F : Floats) → F.Float
minus_one F = F.neg (F.from_ℕ 1)
