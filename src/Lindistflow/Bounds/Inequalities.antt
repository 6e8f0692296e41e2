-- ===== src/Lindistflow/Bounds/Inequalities.antt =====
-- The inequalities in a network that is all primary: their rows and columns.
use sgidal_example.Prelude.{
  if◌then◌else◌, Bool-cases, length, All, get_elem?-lt, ℕ, zero, suc, ◌+◌, ◌*◌, ◌≤◌, ◌<◌, ◌≡◌, refl,
  ap, inl, inr, Bool, Option, none, some, List, [], ◌∷◌, arith,
}
use sgidal_example.Prelude.Exec.{lift, for_each, ◌>>=◌}
use sgidal_example.Floats.{Floats}
use sgidal_example.Lindistflow.{ControlType, watt, var, watt_var}
use sgidal_example.Lindistflow.Build.{
  Sizes, n_bus, n_qdg, state_variable_number, variable_number, constraint_number, one, minus_one,
}
use sgidal_example.Lindistflow.Limits.{
  range_from, mem_ℕ, limit_at, bound, control_limits, voltage_rows, voltage_limit, inequalities,
}
use sgidal_example.Lindistflow.Bounds.{
  total, limit_count, Runs, Runs-pure, Runs-set_a, Runs-set_b, Runs-cell, Runs-rows,
  Runs-advance_row, Runs-lift, Runs-for_each,
}
use sgidal_example.Lindistflow.Bounds.Control.{limits_of}

pub range_from-below : (i n m : ℕ) → i + n ≤ m → All (λ k. k < m) (range_from i n)
range_from-below i zero m h = tt
range_from-below i (suc n) m h = (omega arith, range_from-below (suc i) n m (omega arith))

pub length-range_from : (i n : ℕ) → length (range_from i n) ≡ n
length-range_from i zero = refl
length-range_from i (suc n) = ap suc (length-range_from (suc i) n)

pub total-le :
    {A : Type 0} (w : A → ℕ) (m : ℕ)
    → ((x : A) → w x ≤ m)
    → (xs : List A) → total w xs ≤ length xs * m
total-le w m h [] = omega arith
total-le w m h (x ∷ xs) = let here = h x in let others = total-le w m h xs in omega arith

-- The rows of the limits of the control and of the voltages.
abbrev pub control_rows : ControlType → Sizes → ℕ
control_rows watt z =
    total (λ (k : ℕ). 1) (range_from 0 (n_bus z)) + total (λ (k : ℕ). 1) (range_from 0 (n_bus z))
control_rows var z =
    total (λ (k : ℕ). 1) (range_from 0 (n_bus z)) + total (λ (k : ℕ). 1) (range_from 0 (n_bus z))
control_rows watt_var z = 0

control_rows-le : (control : ControlType) (z : Sizes) → control_rows control z ≤ n_bus z * 2
control_rows-le watt z =
    let rows = total-le (λ (k : ℕ). 1) 1 (λ k. omega arith) (range_from 0 (n_bus z)) in
    let count = length-range_from 0 (n_bus z) in omega arith
control_rows-le var z =
    let rows = total-le (λ (k : ℕ). 1) 1 (λ k. omega arith) (range_from 0 (n_bus z)) in
    let count = length-range_from 0 (n_bus z) in omega arith
control_rows-le watt_var z = omega arith

abbrev pub rows_of_voltage : List ℕ → ℕ → ℕ
rows_of_voltage v_lim k = if mem_ℕ k v_lim then 6 else 0

pub inequality_rows-fit :
    (control : ControlType) (z : Sizes) (v_lim : List ℕ)
    → control_rows control z + total (rows_of_voltage v_lim) (range_from 0 z.nbus_abc)
      ≤ constraint_number z
inequality_rows-fit control z v_lim =
    let voltages =
      total-le (rows_of_voltage v_lim) 6 (λ k. ground arith) (range_from 0 z.nbus_abc) in
    let count = length-range_from 0 z.nbus_abc in
    let controls = control_rows-le control z in omega arith

module _ {F : Floats} where
  module _ {n l : ℕ} where
    bound-Runs :
        (col : ℕ) (coefficient v : F.Float)
        → col < n
        → Runs F n l l 1 1 (bound {F = F} col coefficient v)
    unfolding bound
    bound-Runs col coefficient v inside =
        Runs-cell (Runs-set_a col _ inside)
          (Runs-cell (Runs-set_b _) Runs-advance_row (omega arith)) (omega arith)

    -- A row that reads a limit.
    limit_row-Runs :
        (limits : List F.Float) (k : ℕ) (col : ℕ) (coefficient : F.Float)
        → k < length limits
        → col < n
        → Runs F n l l 1 1
            (lift (limit_at (some limits) k) >>= λ v. bound {F = F} col coefficient v)
    unfolding limit_at
    limit_row-Runs limits k col coefficient known inside =
        let (v, at) = get_elem?-lt limits k known in
        Runs-lift (limit_at (some limits) k) (bound {F = F} col coefficient) v 1 1 (rw (at) refl)
          (bound-Runs col coefficient v inside)

    voltage_limit-Runs :
        (z : Sizes) (pf_flag : Bool) (v_lim : List ℕ) (k : ℕ)
        → k + z.nbus_abc * 2 < n
        → Runs F n l l
            (rows_of_voltage v_lim k)
            (rows_of_voltage v_lim k)
            (voltage_limit {F = F} z pf_flag v_lim k)
    unfolding voltage_limit voltage_rows
    voltage_limit-Runs z pf_flag v_lim k inside = elim (Bool-cases (mem_ℕ k v_lim)) [
      | inl bounded ↦
          let rows : Runs F n l l 6 6 (voltage_rows {F = F} z pf_flag k) =
            Runs-rows (bound-Runs _ _ _ (omega arith)) (
              Runs-rows (bound-Runs _ _ _ (omega arith)) (
                Runs-rows (bound-Runs _ _ _ inside) (
                  Runs-rows (bound-Runs _ _ _ (omega arith))
                    (Runs-rows (bound-Runs _ _ _ (omega arith)) (bound-Runs _ _ _ inside))))) in
          rw (bounded) rows
      | inr free ↦ rw (free) Runs-pure
    ]

  module _ {l : ℕ} (z : Sizes) (limits : List F.Float) (all_bound : length limits ≡ n_bus z) where
    limit_rows-Runs :
        (first : ℕ) (coefficient : F.Float)
        → first + n_bus z ≤ variable_number z
        → Runs F
            (variable_number z)
            l
            l
            (total (λ (k : ℕ). 1) (range_from 0 (n_bus z)))
            (total (λ (k : ℕ). 1) (range_from 0 (n_bus z)))
            (for_each (range_from 0 (n_bus z)) (λ k.
              lift (limit_at (some limits) k) >>= λ v. bound {F = F} (first + k) coefficient v))
    limit_rows-Runs first coefficient inside =
        Runs-for_each (λ k. 1) _ (λ k. k < n_bus z)
          (λ k below. limit_row-Runs limits k (first + k) coefficient (omega arith) (omega arith))
          (range_from 0 (n_bus z)) (range_from-below 0 (n_bus z) (n_bus z) (omega arith))

    control_limits-Runs :
        (control : ControlType)
        → Runs F
            (variable_number z)
            l
            l
            (control_rows control z)
            (control_rows control z)
            (control_limits {F = F} control z (some limits))
    unfolding control_limits
    control_limits-Runs watt =
        Runs-rows (limit_rows-Runs (state_variable_number z) (one F) (omega arith)) (
          Runs-for_each (λ k. 1) _ (λ k. k < n_bus z) (λ k below. bound-Runs _ _ _ (omega arith))
            (range_from 0 (n_bus z)) (range_from-below 0 (n_bus z) (n_bus z) (omega arith)))
    control_limits-Runs var =
        Runs-rows (limit_rows-Runs (n_qdg z) (one F) (omega arith))
          (limit_rows-Runs (n_qdg z) (minus_one F) (omega arith))
    control_limits-Runs watt_var = Runs-pure

  no_limits-Runs :
      {l : ℕ} (z : Sizes) (limits : Option (List F.Float))
      → Runs F (variable_number z) l l 0 0 (control_limits {F = F} watt_var z limits)
  unfolding control_limits
  no_limits-Runs z limits = Runs-pure

  known_limits-Runs :
      {l : ℕ} (control : ControlType) (z : Sizes) (limits : Option (List F.Float))
      → 0 < z.nbus_abc
      → limit_count limits ≡ limits_of control z
      → Runs F
          (variable_number z)
          l
          l
          (control_rows control z)
          (control_rows control z)
          (control_limits {F = F} control z limits)
  known_limits-Runs watt z none some_bus known = absurd (omega arith)
  known_limits-Runs watt z (some limits) some_bus known =
      control_limits-Runs z limits (omega arith) watt
  known_limits-Runs var z none some_bus known = absurd (omega arith)
  known_limits-Runs var z (some limits) some_bus known =
      control_limits-Runs z limits (omega arith) var
  known_limits-Runs watt_var z limits some_bus known = no_limits-Runs z limits

  pub inequalities-Runs :
      {l : ℕ} (control : ControlType) (z : Sizes) (pf_flag : Bool) (limits : Option (List F.Float))
      (v_lim : List ℕ)
      → 0 < z.nbus_abc
      → limit_count limits ≡ limits_of control z
      → Runs F
          (variable_number z)
          l
          l
          (control_rows control z + total (rows_of_voltage v_lim) (range_from 0 z.nbus_abc))
          (control_rows control z + total (rows_of_voltage v_lim) (range_from 0 z.nbus_abc))
          (inequalities {F = F} control z pf_flag limits v_lim)
  unfolding inequalities
  inequalities-Runs control z pf_flag limits v_lim some_bus known =
      Runs-rows (known_limits-Runs control z limits some_bus known) (
        Runs-for_each (rows_of_voltage v_lim) (voltage_limit z pf_flag v_lim) (λ k. k < z.nbus_abc)
          (λ k below. voltage_limit-Runs z pf_flag v_lim k (omega arith)) (range_from 0 z.nbus_abc)
          (range_from-below 0 z.nbus_abc z.nbus_abc (omega arith)))
