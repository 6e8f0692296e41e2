-- ===== src/Feeder/Matrix.antt =====
-- `get_y_matrix` and `get_load_y_matrix`: admittance matrices in the order of `_AllNodeNames`.
use sgidal_example.Prelude.{
  ℕ, Bool, true, false, List, Result, ok, raise, or_raise, index_error, value_error, map_result,
  get_elem?, all, ltb, ◌&&◌, if◌then◌else◌,
}
use sgidal_example.Prelude
use sgidal_example.Prelude.Exec.{Exec, lift, gets, ensure, ◌>>=◌, ◌>>◌}
use sgidal_example.Floats.{Floats, Complex}
use sgidal_example.Indexing.{permutation}
use sgidal_example.Feeder.Engine.{
  Engine, Entry, Coo, load, batchedit, calc_voltage_bases, set_maxiterations, solve_number_one,
}
use sgidal_example.Feeder.Sim.{
  disabled_run as after_disabled_run, solve_at_time, Sim, is_solve_at_time, command, set_state,
}
use sgidal_example.Feeder.Run.{reenable, disable_elements, disabled_run}

-- numpy's `permute[i]`
unfoldable pub permute_entry : {A : Type 0} → List ℕ → Entry A → Result (Entry A)
permute_entry permute x = Prelude.◌>>=◌ (or_raise (get_elem? permute x.row) index_error) λ r.
    Prelude.◌>>=◌ (or_raise (get_elem? permute x.col) index_error)
      λ c. ok (record { row = r; col = c; value = x.value })

-- The entry lies in a matrix of this shape.
unfoldable pub fits : {A : Type 0} → ℕ × ℕ → Entry A → Bool
fits shape x = ltb x.row shape.0 && ltb x.col shape.1

-- `coo_matrix((Y.data, (permute[Y.row], permute[Y.col])), shape=Y.shape)`: scipy refuses an entry outside the
-- shape.
unfoldable pub permute_matrix : {A : Type 0} → List ℕ → Coo A → Result (Coo A)
permute_matrix permute m =
    Prelude.◌>>=◌ (map_result (permute_entry permute) m.entries)
      λ es. if all (fits m.shape) es then ok (record m { entries = es }) else raise value_error

module _ {F : Floats} (e : Engine F) where
  unfoldable pub get_y_matrix : Exec (Sim F) (Coo (Complex F))
  get_y_matrix = do
    disabled_run
    set_state after_disabled_run
    y ← gets (λ s. e.y_matrix s.history)
    new_order ← gets (λ s. e.y_node_order s.history)
    names ← gets (λ s. s.all_node_names)
    permute ← lift (permutation new_order names)
    lift (permute_matrix permute y)

  unfoldable pub get_load_y_matrix : Exec (Sim F) (Coo (Complex F))
  get_load_y_matrix = do
    ensure (λ s. is_solve_at_time s.state)
    disable_elements
    command (batchedit load true)
    command calc_voltage_bases
    command set_maxiterations
    command solve_number_one
    y ← gets (λ s. e.y_matrix s.history)
    new_order ← gets (λ s. e.y_node_order s.history)
    names ← gets (λ s. s.all_node_names)
    permute ← lift (permutation new_order names)
    command (batchedit load false)
    set_state after_disabled_run
    reenable
    command calc_voltage_bases
    command set_maxiterations
    command solve_number_one
    set_state solve_at_time
    lift (permute_matrix permute y)
