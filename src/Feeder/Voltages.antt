-- ===== src/Feeder/Voltages.antt =====
-- `get_voltages` of LocalFeeder/dss_functions.py, and the voltage getters of the simulator.
pub mod Placement
use sgidal_example.Prelude.{
  ℕ, String, not, ◌&&◌, List, [], ◌∷◌, Result, ok, raise, or_raise, key_error, index_error,
  value_error, Dict, insert, lookup, keys, length, set, replicate, if◌then◌else◌, ◌==◌,
}
use sgidal_example.Prelude
use sgidal_example.Prelude.Exec.{Exec, asks, ensure, ◌>>=◌, ◌>>◌}
use sgidal_example.Floats.{Floats, Complex}
use sgidal_example.Feeder.Engine.{Engine}
use sgidal_example.Feeder.Sim.{
  Sim, is_unloaded, is_disabled_run, is_disabled_solve, is_snapshot_run, is_solve_at_time,
}

-- An xarray `DataArray` along the one coordinate `ids`.
pub record Labelled (A : Type 0) : Type 0 where
  pub values : List A
  pub ids : List String

-- xarray refuses a coordinate of another length.
abbrev pub data_array : {A : Type 0} → List A → List String → Result (Labelled A)
data_array values ids =
    if length values == length ids
    then ok (record { values = values; ids = ids })
    else raise value_error

module _ {A : Type 0} where
  -- The dict comprehension of `get_voltages`, over the names and the flat list of parts.
  unfoldable pub pair_up : List String → List A → Dict (A × A) → Result (Dict (A × A))
  pair_up [] parts d = ok d
  pair_up (name ∷ names) (re ∷ im ∷ parts) d = pair_up names parts (insert name (re, im) d)
  pair_up (name ∷ names) _ d = raise index_error

  -- The loop of `_get_voltages`: each voltage goes to the index of its name.
  unfoldable pub place : Dict A → Dict ℕ → List A → Result (List A)
  place [] index res = ok res
  place ((name, v) ∷ rest) index res =
      Prelude.◌>>=◌ (or_raise (lookup name index) key_error) (λ i. place rest index (set res i v))

module _ {F : Floats} (e : Engine F) where
  -- `get_voltages(circuit)`
  unfoldable pub circuit_voltages : Sim F → Result (Dict (Complex F))
  circuit_voltages s = pair_up (e.y_node_order s.history) (e.y_node_v_array s.history) []

  unfoldable pub get_voltages : Exec (Sim F) (Labelled (Complex F))
  unfolding circuit_voltages
  get_voltages = do
    ensure (λ s. not (is_disabled_run s.state) && not (is_unloaded s.state))
    by_name ← asks circuit_voltages
    res ← asks (λ s.
        place by_name s.name_index_dict
          (replicate (length s.all_node_names) (F.from_ℕ 0, F.from_ℕ 0)))
    asks (λ s. data_array res (keys by_name))

  unfoldable pub get_disabled_solve_voltages : Exec (Sim F) (Labelled (Complex F))
  get_disabled_solve_voltages = do ensure (λ s. is_disabled_solve s.state); get_voltages

  unfoldable pub get_voltages_snapshot : Exec (Sim F) (Labelled (Complex F))
  get_voltages_snapshot = do ensure (λ s. is_snapshot_run s.state); get_voltages

  unfoldable pub get_voltages_actual : Exec (Sim F) (Labelled (Complex F))
  get_voltages_actual = do ensure (λ s. is_solve_at_time s.state); get_voltages

module _ {F : Floats} where
  unfoldable pub get_base_voltages : Exec (Sim F) (Labelled F.Float)
  get_base_voltages = asks (λ s. data_array s.vbase_allnode s.all_node_names)
