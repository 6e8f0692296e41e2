-- ===== src/Cosim/Loop.antt =====
-- `go_cosim`: the rounds of the feeder federate from the first request of time to the last.
use sgidal_example.Prelude.{
  ltb, ◌==◌, if◌then◌else◌, length, get_elem?, or_raise, Result, value_error, index_error, ok,
  raise, ℕ, ◌+◌, String, ◌⊎◌, inl, inr, Bool, true, false, List, [], ◌∷◌, ◌++◌,
}
use sgidal_example.Prelude
use sgidal_example.Prelude.Exec.{Exec, pure, lift, gets, modify, ensure, for_each, ◌>>=◌, ◌>>◌}
use sgidal_example.Floats.{Floats, Complex}
use sgidal_example.Feeder.Engine.{Engine, Coo}
use sgidal_example.Feeder.Sim.{Sim}
use sgidal_example.Feeder.Run.{snapshot_run, solve}
use sgidal_example.Feeder.Load.{Change, change_obj}
use sgidal_example.Feeder.Inverter.{InverterControl, after_dot, apply_inverter_control}
use sgidal_example.Feeder.Pv.{set_pv_output, get_available_pv}
use sgidal_example.Feeder.Voltages.{Labelled}
use sgidal_example.Cosim.{AdmittanceSparse, sparse_to_admittance_sparse}
use sgidal_example.Cosim.Current.{Arrays, CurrentData, get_current_data, where_power_unbalanced}

-- What HELICS gives for a request of time: the granted time and the inputs at that time.
pub record Round (F : Floats) : Type 0 where
  pub granted_time : F.Float
  pub change_commands : List Change
  pub inv_control : List (InverterControl F)
  pub pv_set : List (String × F.Float × F.Float)

-- What is published in a round.
pub record Published (F : Floats) : Type 0 where
  pub granted_time : F.Float
  pub current_data : CurrentData F
  pub available_power : Labelled F.Float

-- The federate: the simulator, the time that it asks for next, what it has published, oldest first.
pub record Cosim (F : Floats) : Type 0 where
  pub sim : Sim F
  pub request_time : ℕ
  pub published : List (Published F)
  pub published_matrices : List (AdmittanceSparse (Complex F) ⊎ Coo (Complex F))
  pub disconnected : Bool

abbrev pub deltat : (F : Floats) → F.Float
deltat F = F.literal 1 100

module _ {F : Floats} where
  -- A method of the simulator.
  abbrev pub with_sim : {A : Type 0} → Exec (Sim F) A → Exec (Cosim F) A
  with_sim m s = let (r, sim) = m s.sim in (r, record s { sim = sim })

  -- The next request: one later where the time is granted, and as before where it is earlier.
  unfoldable pub request_next : F.Float → Exec (Cosim F) (Unit {0})
  request_next granted_time = modify (λ s. record s {
    request_time =
        if F.le (F.minus (F.from_ℕ s.request_time) (deltat F)) granted_time
        then s.request_time + 1
        else s.request_time;
  })

  -- `granted_time <= request_time + deltat`
  abbrev pub is_granted : F.Float → Cosim F → Bool
  is_granted granted_time s = F.le granted_time (F.plus (F.from_ℕ s.request_time) (deltat F))

  unfoldable pub take_time : F.Float → Exec (Cosim F) (Unit {0})
  take_time granted_time = ensure (is_granted granted_time) >> request_next granted_time

  -- The matrix is published as a list of its entries, or whole.
  unfoldable pub publish_sparse : AdmittanceSparse (Complex F) → Exec (Cosim F) (Unit {0})
  publish_sparse sparse =
      modify (λ s. record s { published_matrices = s.published_matrices ++ inl sparse ∷ [] })

  unfoldable pub publish_entries : Coo (Complex F) → List String → Exec (Cosim F) (Unit {0})
  publish_entries matrix names = lift (sparse_to_admittance_sparse matrix names) >>= publish_sparse

  unfoldable pub publish_matrix : Bool → Coo (Complex F) → Exec (Cosim F) (Unit {0})
  publish_matrix true matrix = gets (λ s. s.sim.all_node_names) >>= publish_entries matrix
  publish_matrix false matrix =
      modify (λ s. record s { published_matrices = s.published_matrices ++ inr matrix ∷ [] })

  unfoldable pub publish : Published F → Exec (Cosim F) (Unit {0})
  publish p = modify (λ s. record s { published = s.published ++ p ∷ [] })

  -- The message of the log reads the first voltage.
  unfoldable pub log_first : CurrentData F → Result (String × Complex F)
  log_first d = Prelude.◌>>=◌ (or_raise (get_elem? d.feeder_voltages.ids 0) index_error) (λ id.
      Prelude.◌>>=◌ (or_raise (get_elem? d.feeder_voltages.values 0) index_error) (λ v. ok (id, v)))

unfoldable pub check_balance : {F : Floats} → Arrays F → CurrentData F → Result (CurrentData F)
check_balance {F = F} arrays current_data =
    let bad_bus_names =
      where_power_unbalanced arrays current_data.pq_injections_all current_data.calculated_power
        (F.from_ℕ 1) in
    if length bad_bus_names == 0 then ok current_data else raise value_error

-- `clock` is the calendar's: the hour and the second within it at which the round of a granted time
-- starts, from the start date and the frequency of the configuration.
module _ {F : Floats} (e : Engine F) (arrays : Arrays F) (clock : F.Float → ℕ × ℕ) where
  -- The inputs of a round, and the two solves.
  unfoldable pub apply_inputs : Round F → Exec (Sim F) (Unit {0})
  apply_inputs round = do
    change_obj e round.change_commands
    for_each round.inv_control (λ c. apply_inverter_control c >>= λ _. pure tt)
    for_each round.pv_set (λ pv. do name ← lift (after_dot pv.0); set_pv_output e name pv.1 pv.2)

  unfoldable pub solve_round : Round F → Exec (Sim F) (Unit {0})
  solve_round round = do
    apply_inputs round
    snapshot_run
    solve ((clock round.granted_time).0) ((clock round.granted_time).1)

  -- The data of the round; a bus out of balance is a `ValueError`.
  unfoldable pub checked_data : Coo (Complex F) → Round F → Exec (Sim F) (CurrentData F)
  checked_data y round = do
    solve_round round
    current_data ← get_current_data e arrays y
    lift (check_balance arrays current_data)

module _ {F : Floats} (e : Engine F) (arrays : Arrays F) (clock : F.Float → ℕ × ℕ)
    (use_sparse_admittance : Bool) where
  -- What is published, once the available power is known.
  unfoldable pub publish_round :
      Round F → CurrentData F → Labelled F.Float → Exec (Cosim F) (Unit {0})
  publish_round round d available_power =
      publish (record {
        granted_time = round.granted_time;
        current_data = d;
        available_power = available_power;
      })
      >> publish_matrix use_sparse_admittance d.load_y_matrix

  unfoldable pub report : Round F → CurrentData F → Exec (Cosim F) (Unit {0})
  report round d =
      lift (log_first d) >>= λ _. with_sim (get_available_pv e) >>= publish_round round d

  unfoldable pub go_round : Coo (Complex F) → Round F → Exec (Cosim F) (Unit {0})
  go_round y round =
      take_time round.granted_time
      >> (with_sim (checked_data e arrays clock y round) >>= report round)

  abbrev pub disconnect : Exec (Cosim F) (Unit {0})
  disconnect = modify (λ s. record s { disconnected = true })

  -- The loop, for the grants that HELICS gives one after another. After the last one it waits.
  unfoldable pub go_cosim : Coo (Complex F) → ℕ → List (Round F) → Exec (Cosim F) (Unit {0})
  go_cosim y number_of_timesteps [] s =
      if ltb s.request_time number_of_timesteps then (ok tt, s) else disconnect s
  go_cosim y number_of_timesteps (round ∷ rounds) s =
      let rest = go_cosim y number_of_timesteps rounds in
      if ltb s.request_time number_of_timesteps
      then ((go_round y round >> rest) s)
      else disconnect s
