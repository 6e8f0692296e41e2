-- ===== src/Cosim/Initial.antt =====
-- `get_initial_data`: the topology that the feeder federate publishes before its loop.
use sgidal_example.Prelude.{
  map_result, Result, index_error, ok, raise, ℕ, suc, ◌-◌, String, ◌⊎◌, inl, inr, Bool, true, false,
  List, [], ◌∷◌, map,
}
use sgidal_example.Prelude
use sgidal_example.Prelude.Exec.{Exec, pure, lift, gets, ◌>>=◌, ◌>>◌}
use sgidal_example.Floats.{Floats, Complex}
use sgidal_example.Feeder.Engine.{Engine, Coo}
use sgidal_example.Feeder.Sim.{Sim}
use sgidal_example.Feeder.Run.{snapshot_run, solve}
use sgidal_example.Feeder.Matrix.{get_y_matrix}
use sgidal_example.Feeder.Incidence.{IncidenceList, get_incidences}
use sgidal_example.Feeder.Voltages.{Labelled, get_voltages_actual, get_base_voltages}
use sgidal_example.Feeder.Power.{get_pqs_load, get_pqs_pv, get_pqs_gen, get_pqs_cap}
use sgidal_example.Cosim.{
  MeasurementArray, AdmittanceSparse, id_at, sparse_to_admittance_sparse, get_true_phases,
  get_powers,
}
use sgidal_example.Cosim.Current.{Arrays, negated}
use sgidal_example.Lindistflow.Limits.{range_from}

-- `slack_bus` of the topology, its incidences and its arrays. The matrix is the list of its entries,
-- or whole.
pub record Topology (F : Floats) : Type 0 where
  pub admittance : AdmittanceSparse (Complex F) ⊎ Coo (Complex F)
  pub base_voltage_angles : Labelled F.Float
  pub injections : MeasurementArray F.Float × MeasurementArray F.Float
  pub base_voltage_magnitudes : Labelled F.Float
  pub slack_bus : List String
  pub incidences : IncidenceList

pub record InitialData (F : Floats) : Type 0 where
  pub y : Coo (Complex F)
  pub topology : Topology F

-- `xs[-1]`, after the first element
unfoldable pub last_of : ℕ → List ℕ → ℕ
last_of i [] = i
last_of i (j ∷ is) = last_of j is

-- The names at the places from the first index to the last.
unfoldable pub slack_ids : List String → List ℕ → Result (List String)
slack_ids names [] = raise index_error
slack_ids names (i ∷ is) = map_result (λ j. id_at names j) (range_from i (suc (last_of i is) - i))

unfoldable pub initial_admittance :
    {A : Type 0} → Bool → Coo A → List String → Result (AdmittanceSparse A ⊎ Coo A)
initial_admittance true y names =
    Prelude.◌>>=◌ (sparse_to_admittance_sparse y names) (λ sparse. ok (inl sparse))
initial_admittance false y names = ok (inr y)

-- `np.angle` of a complex number, and `np.pi`.
module _ {F : Floats} (e : Engine F) (arrays : Arrays F) (angle : Complex F → F.Float)
    (pi : F.Float) where
  -- The snapshot, the powers without a solve, and the solve: the injections of the topology.
  unfoldable pub initial_injections :
      Exec (Sim F) (MeasurementArray F.Float × MeasurementArray F.Float)
  initial_injections = do
    snapshot_run
    pq_load ← get_pqs_load e arrays.sortby_ids true
    pq_pv ← get_pqs_pv e arrays.sortby_ids true
    pq_gen ← get_pqs_gen e arrays.sortby_ids true
    pq_cap ← get_pqs_cap e arrays.sortby_ids true
    solve 0 0
    lift (
        get_powers F arrays.real_units arrays.imag_units (negated arrays pq_load)
          (negated arrays pq_pv) (negated arrays pq_gen) (negated arrays pq_cap))

  unfoldable pub initial_angles : Exec (Sim F) (Labelled F.Float)
  initial_angles = do
    feeder_voltages ← get_voltages_actual e
    phases ← lift (map_result (get_true_phases F pi) (map angle feeder_voltages.values))
    pure (record { values = phases; ids = feeder_voltages.ids })

  unfoldable pub get_initial_data : Bool → Exec (Sim F) (InitialData F)
  get_initial_data use_sparse_admittance = do
    incidences ← get_incidences e
    y ← get_y_matrix e
    unique_ids ← gets (λ s. s.all_node_names)
    admittance ← lift (initial_admittance use_sparse_admittance y unique_ids)
    sources ← gets (λ s. s.source_indexes)
    slack ← lift (slack_ids unique_ids sources)
    base_voltages ← get_base_voltages
    injections ← initial_injections
    angles ← initial_angles
    pure (record {
      y = y;
      topology = record {
        admittance = admittance;
        base_voltage_angles = angles;
        injections = injections;
        base_voltage_magnitudes = record {
          values = map F.abs base_voltages.values;
          ids = base_voltages.ids;
        };
        slack_bus = slack;
        incidences = incidences;
      };
    })
