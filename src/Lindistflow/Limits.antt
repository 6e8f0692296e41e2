-- ===== src/Lindistflow/Limits.antt =====
-- The inequalities of `optimal_power_flow`: limits of the control and of the voltages.
use sgidal_example.Prelude.{
  ◌==◌, if◌then◌else◌, get_elem?, or_raise, Result, pos, index_error, unbound_local_error, raise, ℕ,
  zero, suc, ◌+◌, ◌*◌, Bool, false, ◌||◌, Option, none, some, List, [], ◌∷◌,
}
use sgidal_example.Prelude.Exec.{Exec, pure, lift, for_each, ◌>>=◌, ◌>>◌}
use sgidal_example.Floats.{Floats}
use sgidal_example.Lindistflow.{ControlType, watt, var, watt_var}
use sgidal_example.Lindistflow.Build.{
  Sizes, Build, n_bus, state_variable_number, n_qdg, set_a, set_b, advance, one, minus_one,
}

-- `range(n)`
abbrev pub range_from : ℕ → ℕ → List ℕ
range_from i zero = []
range_from i (suc n) = i ∷ range_from (suc i) n

-- `k in v_idxs`
abbrev pub mem_ℕ : ℕ → List ℕ → Bool
mem_ℕ k [] = false
mem_ℕ k (v ∷ vs) = v == k || mem_ℕ k vs

-- The squares of the voltage's bounds: `vmax ** 2` and `-(vmin ** 2)`.
abbrev pub upper_voltage : (F : Floats) → Bool → F.Float
upper_voltage F pf_flag =
    let v = if pf_flag then F.literal 15 10 else F.literal 105 100 in F.times v v

abbrev pub lower_voltage : (F : Floats) → Bool → F.Float
lower_voltage F pf_flag =
    let v = if pf_flag then F.literal 1 10 else F.literal 95 100 in F.neg (F.times v v)

-- `DG_up_lim[k, 0]`
unfoldable pub limit_at : {A : Type 0} → Option (List A) → ℕ → Result A
limit_at none k = raise unbound_local_error
limit_at (some limits) k = or_raise (get_elem? limits k) index_error

module _ {F : Floats} where
  -- One inequality with one coefficient.
  unfoldable pub bound : ℕ → F.Float → F.Float → Exec (Build F) (Unit {0})
  bound col coefficient v = do set_a (pos col) coefficient; set_b v; advance

  -- The bounds of the control variables, above and below.
  unfoldable pub control_limits :
      ControlType → Sizes → Option (List F.Float) → Exec (Build F) (Unit {0})
  control_limits watt z limits = do
    for_each (range_from 0 (n_bus z))
        (λ k. do v ← lift (limit_at limits k); bound (state_variable_number z + k) (one F) v)
    for_each (range_from 0 (n_bus z))
        (λ k. bound (state_variable_number z + k) (minus_one F) (F.from_ℕ 0))
  control_limits var z limits = do
    for_each (range_from 0 (n_bus z))
        (λ k. do v ← lift (limit_at limits k); bound (n_qdg z + k) (one F) v)
    for_each (range_from 0 (n_bus z))
        (λ k. do v ← lift (limit_at limits k); bound (n_qdg z + k) (minus_one F) v)
  control_limits watt_var z limits = pure tt

  unfoldable pub voltage_rows : Sizes → Bool → ℕ → Exec (Build F) (Unit {0})
  voltage_rows z pf_flag k = do
    bound k (one F) (upper_voltage F pf_flag)
    bound (k + z.nbus_abc) (one F) (upper_voltage F pf_flag)
    bound (k + z.nbus_abc * 2) (one F) (upper_voltage F pf_flag)
    bound k (minus_one F) (lower_voltage F pf_flag)
    bound (k + z.nbus_abc) (minus_one F) (lower_voltage F pf_flag)
    bound (k + z.nbus_abc * 2) (minus_one F) (lower_voltage F pf_flag)

  unfoldable pub voltage_limit : Sizes → Bool → List ℕ → ℕ → Exec (Build F) (Unit {0})
  voltage_limit z pf_flag v_lim k = if mem_ℕ k v_lim then voltage_rows z pf_flag k else pure tt

  unfoldable pub inequalities :
      ControlType → Sizes → Bool → Option (List F.Float) → List ℕ → Exec (Build F) (Unit {0})
  inequalities control z pf_flag limits v_lim = do
    control_limits control z limits
    for_each (range_from 0 z.nbus_abc) (voltage_limit z pf_flag v_lim)
