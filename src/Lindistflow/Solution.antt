-- ===== src/Lindistflow/Solution.antt =====
-- What `optimal_power_flow` reads out of the solver's answer.
use sgidal_example.Prelude.{
  if◌then◌else◌, get_elem?, or_raise, Result, Dict, insert, index_error, unbound_local_error, ok,
  raise, ℕ, ◌+◌, ◌*◌, String, Option, List, [], ◌∷◌, ◌>>=◌,
}
use sgidal_example.Floats.{Floats}
use sgidal_example.Area.{AreaBus}
use sgidal_example.Lindistflow.{ControlType, watt, var, watt_var}
use sgidal_example.Lindistflow.Build.{Sizes, voltage_count, state_variable_number, n_qdg}
use sgidal_example.Lindistflow.Injection.{base_s}
use sgidal_example.Lindistflow.Limits.{limit_at}

-- `x.value[k]`
abbrev pub value_at : {A : Type 0} → List A → ℕ → Result A
value_at xs k = or_raise (get_elem? xs k) index_error

-- The values of three phases.
abbrev pub by_phase : {A : Type 0} → A → A → A → Dict A
by_phase a b c = ("A", a) ∷ ("B", b) ∷ ("C", c) ∷ []

-- `value_at` at three places.
unfoldable pub three_at : {A : Type 0} → List A → ℕ → ℕ → ℕ → Result (A × A × A)
three_at xs i j k =
    value_at xs i >>= λ a. value_at xs j >>= λ b. value_at xs k >>= λ c. ok (a, b, c)

-- `control_variable_idx_start`, which the third mode leaves unbound.
unfoldable pub control_start : ControlType → Sizes → Result ℕ
control_start watt z = ok (state_variable_number z)
control_start var z = ok (n_qdg z)
control_start watt_var z = raise unbound_local_error

module _ (F : Floats) where
  -- `[x.value[p] * mul * 1000, x.value[q] * mul * 1000]`
  unfoldable pub flow_pair : List F.Float → ℕ → ℕ → Result (F.Float × F.Float)
  flow_pair xs p q =
      let mul = F.over (F.from_ℕ 1) (F.times (base_s F) (F.from_ℕ 1000)) in
      value_at xs p >>= λ re. value_at xs q >>= λ im.
      ok (F.times (F.times re mul) (F.from_ℕ 1000), F.times (F.times im mul) (F.from_ℕ 1000))

  -- The loop over the columns of the flows: `names` are the branches, from the `i`-th.
  unfoldable pub line_flows :
      Sizes
      → List F.Float
      → List String
      → List ℕ
      → Dict (Dict (F.Float × F.Float))
      → Result (Dict (Dict (F.Float × F.Float)))
  line_flows z xs names [] acc = ok acc
  line_flows z xs names (i ∷ rest) acc =
      let k = voltage_count z + i in
      or_raise (get_elem? names i) index_error >>= λ name.
      flow_pair xs k (k + z.nbranch_abc * 3) >>= λ a.
      flow_pair xs (k + z.nbranch_abc) (k + z.nbranch_abc * 4) >>= λ b.
      flow_pair xs (k + z.nbranch_abc * 2) (k + z.nbranch_abc * 5) >>= λ c.
      line_flows z xs names rest (insert name (by_phase a b c) acc)

  -- `sqrt(abs(x.value[…]))` of the three voltages of a bus.
  unfoldable pub voltages_at : Sizes → List F.Float → ℕ → Result (Dict F.Float)
  voltages_at z xs k = three_at xs k (z.nbus_abc + k) (z.nbus_abc * 2 + k) >>= λ v.
      ok (by_phase (F.sqrt (F.abs v.0)) (F.sqrt (F.abs v.1)) (F.sqrt (F.abs v.2)))

  -- The first loop over the voltages, by place.
  unfoldable pub placed_voltages :
      Sizes
      → List F.Float
      → List String
      → List ℕ
      → Dict (Dict F.Float)
      → Result (Dict (Dict F.Float))
  placed_voltages z xs names [] acc = ok acc
  placed_voltages z xs names (k ∷ rest) acc = or_raise (get_elem? names k) index_error >>= λ name.
      voltages_at z xs k >>= λ v. placed_voltages z xs names rest (insert name v acc)

  -- The second loop, by the number of the bus: it replaces what the first has put.
  unfoldable pub bus_voltages :
      Sizes → List F.Float → Dict (AreaBus F) → Dict (Dict F.Float) → Result (Dict (Dict F.Float))
  bus_voltages z xs [] acc = ok acc
  bus_voltages z xs ((key, b) ∷ rest) acc =
      voltages_at z xs b.idx >>= λ v. bus_voltages z xs rest (insert key v acc)

  -- The loop that fills `generation_output`, which is not returned.
  unfoldable pub generation_output :
      Sizes → Option (List F.Float) → List F.Float → Result ℕ → List ℕ → Result (List (ℕ × F.Float))
  generation_output z limits xs start [] = ok []
  generation_output z limits xs start (k ∷ rest) =
      let others = generation_output z limits xs start rest in
      limit_at limits k >>= λ limit.
      (if F.eq limit (F.from_ℕ 0)
        then others
        else (start >>= λ first.
            value_at xs (k + first) >>= λ v. others >>= λ more. ok ((k, v) ∷ more)))

  -- The set points by bus and phase.
  unfoldable pub control_variables :
      Sizes
      → List F.Float
      → Result ℕ
      → Dict (AreaBus F)
      → Dict (Dict F.Float)
      → Result (Dict (Dict F.Float))
  control_variables z xs start [] acc = ok acc
  control_variables z xs start ((key, b) ∷ rest) acc = start >>= λ first.
      three_at xs (b.idx + first) (z.nbus_abc + b.idx + first) (z.nbus_abc * 2 + b.idx + first)
      >>= λ v. control_variables z xs start rest (insert key (by_phase v.0 v.1 v.2) acc)
