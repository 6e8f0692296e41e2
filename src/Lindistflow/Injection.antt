-- ===== src/Lindistflow/Injection.antt =====
-- The injections of `optimal_power_flow`: loads, generation and the limits of its control.
use sgidal_example.Prelude.{
  if◌then◌else◌, get_elem?, replicate, or_raise, Result, Dict, pos, index_error, type_error, ℕ, ◌+◌,
  ◌*◌, String, some, List, str_eq,
}
use sgidal_example.Prelude.Exec.{Exec, pure, throw, lift, modify, for_each, ◌>>=◌, ◌>>◌}
use sgidal_example.Floats.{Floats}
use sgidal_example.Area.{AreaBus}
use sgidal_example.Lindistflow.{ControlType, watt, var, watt_var}
use sgidal_example.Lindistflow.Build.{
  Sizes, Build, n_bus, state_variable_number, n_qdg, set_a, set_b, set_limit, advance, one,
}

-- `BASE_S`
abbrev pub base_s : (F : Floats) → F.Float
base_s F = F.over (F.from_ℕ 1) (F.from_ℕ (1_000_000 * 100))

-- `x * BASE_S` and `x * BASE_S * mult`
abbrev pub per_unit : (F : Floats) → F.Float → F.Float
per_unit F x = F.times x (base_s F)

abbrev pub load_of : (F : Floats) → F.Float → F.Float
load_of F x = F.times (per_unit F x) (F.from_ℕ 1)

-- `sqrt((S_CAPACITY * x * BASE_S) ** 2 - (x * BASE_S) ** 2)`
unfoldable pub reactive_limit : (F : Floats) → F.Float → F.Float
reactive_limit F x =
    let rating = per_unit F (F.times (F.literal 12 10) x) in
    F.sqrt (F.minus (F.times rating rating) (F.times (per_unit F x) (per_unit F x)))

-- `b[…][p]`
abbrev pub pair_at : {A : Type 0} → List A → ℕ → Result A
pair_at pairs p = or_raise (get_elem? pairs p) index_error

module _ {F : Floats} where
  -- `p_inj + p_gen = p_load` for one phase.
  unfoldable pub watt_real : Sizes → AreaBus F → ℕ → Exec (Build F) (Unit {0})
  watt_real z b p = do
    set_a (pos (z.nbus_abc * 3 + z.nbus_s1s2 + z.nbus_abc * p + b.idx)) (one F)
    set_a (pos (state_variable_number z + z.nbus_abc * p + b.idx)) (one F)
    pq ← lift (pair_at b.pq p)
    set_b (load_of F pq.0)
    advance

  unfoldable pub watt_limit : Sizes → AreaBus F → ℕ → Exec (Build F) (Unit {0})
  watt_limit z b p = do
    pv ← lift (pair_at b.pv p)
    set_limit (z.nbus_abc * p + b.idx) (per_unit F pv.0)

  unfoldable pub watt_reactive : Sizes → AreaBus F → ℕ → Exec (Build F) (Unit {0})
  watt_reactive z b p = do
    set_a (pos (z.nbus_abc * 3 + z.nbus_s1s2 + z.nbus_abc * (3 + p) + b.idx)) (one F)
    pq ← lift (pair_at b.pq p)
    set_b (load_of F pq.1)
    advance

  -- `p_inj = -p_gen + p_load`
  unfoldable pub var_real : Sizes → AreaBus F → ℕ → Exec (Build F) (Unit {0})
  var_real z b p = do
    set_a (pos (z.nbus_abc * 3 + z.nbus_s1s2 + z.nbus_abc * p + b.idx)) (one F)
    pv ← lift (pair_at b.pv p)
    pq ← lift (pair_at b.pq p)
    set_b (F.plus (per_unit F (F.neg pv.0)) (load_of F pq.0))
    advance

  unfoldable pub var_reactive : Sizes → AreaBus F → ℕ → Exec (Build F) (Unit {0})
  var_reactive z b p = do
    set_a (pos (z.nbus_abc * 3 + z.nbus_s1s2 + z.nbus_abc * (3 + p) + b.idx)) (one F)
    set_a (pos (n_qdg z + z.nbus_abc * p + b.idx)) (one F)
    pq ← lift (pair_at b.pq p)
    set_b (load_of F pq.1)
    advance

  unfoldable pub var_limit : Sizes → AreaBus F → ℕ → Exec (Build F) (Unit {0})
  var_limit z b p = do
    pv ← lift (pair_at b.pv p)
    set_limit (z.nbus_abc * p + b.idx) (reactive_limit F pv.0)

  -- The `else` branch of both modes, for a bus of the secondary: `val_bus["pq"][0]` is a list, and a
  -- list times a float is a `TypeError`.
  unfoldable pub secondary_injection : Sizes → AreaBus F → Exec (Build F) (Unit {0})
  secondary_injection z b = do
    set_a (pos (z.nbus_abc * 3 + z.nbus_s1s2 + z.nbus_abc * 5 + b.idx)) (one F)
    set_a (pos (state_variable_number z + b.idx)) (one F)
    pq ← lift (pair_at b.pq 0)
    throw type_error

  -- The body of the loop over the buses, for the two modes that have one.
  unfoldable pub watt_primary : Sizes → AreaBus F → Exec (Build F) (Unit {0})
  watt_primary z b = do
    watt_real z b 0
    watt_real z b 1
    watt_real z b 2
    watt_limit z b 0
    watt_limit z b 1
    watt_limit z b 2
    watt_reactive z b 0
    watt_reactive z b 1
    watt_reactive z b 2

  unfoldable pub watt_bus : Sizes → AreaBus F → Exec (Build F) (Unit {0})
  watt_bus z b = if F.lt (F.literal 12 100) b.kv then watt_primary z b else secondary_injection z b

  unfoldable pub var_primary : Sizes → AreaBus F → Exec (Build F) (Unit {0})
  var_primary z b = do
    var_real z b 0
    var_real z b 1
    var_real z b 2
    var_reactive z b 0
    var_reactive z b 1
    var_reactive z b 2
    var_limit z b 0
    var_limit z b 1
    var_limit z b 2

  unfoldable pub var_bus : Sizes → AreaBus F → Exec (Build F) (Unit {0})
  var_bus z b = if F.lt (F.literal 12 100) b.kv then var_primary z b else secondary_injection z b

  -- `DG_up_lim = np.zeros((n_bus, 1))`
  abbrev pub bind_limits : Sizes → Exec (Build F) (Unit {0})
  bind_limits z = modify (λ s. record s { limits = some (replicate (n_bus z) (F.from_ℕ 0)) })

  unfoldable pub injections :
      ControlType → Sizes → Dict (AreaBus F) → String → Exec (Build F) (Unit {0})
  injections watt z bus_info source_bus =
      bind_limits z
      >> for_each bus_info (λ p. if str_eq p.0 source_bus then pure tt else watt_bus z p.1)
  injections var z bus_info source_bus =
      bind_limits z
      >> for_each bus_info (λ p. if str_eq p.0 source_bus then pure tt else var_bus z p.1)
  injections watt_var z bus_info source_bus = pure tt

  -- The loop that sets the reactive power of the secondary's generation to 0.
  unfoldable pub no_reactive : Sizes → AreaBus F → Exec (Build F) (Unit {0})
  no_reactive z b = do
    set_a (pos (n_qdg z + z.nbus_abc * 2 + b.idx)) (one F)
    set_b (F.times (F.times (F.from_ℕ 0) b.s_rated) (base_s F))
    advance

  unfoldable pub secondary_reactive : Sizes → AreaBus F → Exec (Build F) (Unit {0})
  secondary_reactive z b = if F.lt b.kv (F.literal 12 100) then no_reactive z b else pure tt
