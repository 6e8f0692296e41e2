-- ===== src/Cosim/Current.antt =====
-- The data that the feeder federate takes from the simulator after a solve, and their check.
use sgidal_example.Prelude.{if◌then◌else◌, Result, ℕ, String, false, List, [], ◌∷◌, map}
use sgidal_example.Prelude.Exec.{Exec, pure, lift, gets, ◌>>=◌}
use sgidal_example.Floats.{Floats, Complex}
use sgidal_example.Feeder.Engine.{Engine, Coo}
use sgidal_example.Feeder.Sim.{Sim}
use sgidal_example.Feeder.Matrix.{get_load_y_matrix}
use sgidal_example.Feeder.Voltages.{Labelled, get_voltages_actual}
use sgidal_example.Feeder.Power.{Pq, get_pqs_load, get_pqs_pv, get_pqs_gen, get_pqs_cap}
use sgidal_example.Cosim.{MeasurementArray, get_powers}

-- What the code calls of xarray and numpy on arrays with names, and the units of the message types.
pub record Arrays (F : Floats) : Type 0 where
  pub sortby_ids : List (Pq F) → List (Pq F)
  -- `xr.zeros_like(ids)`, and `xr.align(ids, x.groupby("ids").sum(), join="left", fill_value=0.0)`
  pub zeros_like : List String → Labelled (Complex F)
  pub aligned_sums : List (Pq F) → List String → Labelled (Complex F)
  pub plus : Labelled (Complex F) → Labelled (Complex F) → Labelled (Complex F)
  pub times : Labelled (Complex F) → Labelled (Complex F) → Labelled (Complex F)
  pub over : Labelled (Complex F) → F.Float → Labelled (Complex F)
  pub negate : Labelled (Complex F) → Labelled (Complex F)
  pub conjugate : Labelled (Complex F) → Labelled (Complex F)
  pub conjugate_matrix : Coo (Complex F) → Coo (Complex F)
  -- `matrix @ x`, with the names of `x`
  pub apply_matrix : Coo (Complex F) → Labelled (Complex F) → Labelled (Complex F)
  -- `x[indices]`, and `x[indices] = y`
  pub at : Labelled (Complex F) → List ℕ → Result (Labelled (Complex F))
  pub set_at : Labelled (Complex F) → List ℕ → Labelled (Complex F) → Result (Labelled (Complex F))
  -- `np.abs` of a complex number
  pub magnitude : Complex F → F.Float
  pub real_units : String
  pub imag_units : String

pub record CurrentData (F : Floats) : Type 0 where
  pub feeder_voltages : Labelled (Complex F)
  pub pq_injections_all : Labelled (Complex F)
  pub calculated_power : Labelled (Complex F)
  pub injections : MeasurementArray F.Float × MeasurementArray F.Float
  pub load_y_matrix : Coo (Complex F)

module _ {F : Floats} (arrays : Arrays F) where
  -- `-PQ`
  abbrev pub negated : List (Pq F) → List (Pq F)
  negated = map (λ (x : Pq F). record x { value = (F.neg x.value.0, F.neg x.value.1) })

  unfoldable pub agg_to_ids : List (Pq F) → List String → Labelled (Complex F)
  agg_to_ids [] ids = arrays.zeros_like ids
  agg_to_ids (x ∷ xs) ids = arrays.aligned_sums (x ∷ xs) ids

  -- `feeder_voltages * (Y.conjugate() @ feeder_voltages.conjugate()) / 1000`
  abbrev pub power_of : Coo (Complex F) → Labelled (Complex F) → Labelled (Complex F)
  power_of y v =
      arrays.over
        (arrays.times v (arrays.apply_matrix (arrays.conjugate_matrix y) (arrays.conjugate v)))
        (F.from_ℕ 1000)

  -- The names whose error is greater than the tolerance.
  unfoldable pub names_above : F.Float → List (Complex F) → List String → List String
  names_above tol (z ∷ zs) (id ∷ ids) =
      let rest = names_above tol zs ids in if F.lt tol (arrays.magnitude z) then id ∷ rest else rest
  names_above tol _ _ = []

  unfoldable pub where_power_unbalanced :
      Labelled (Complex F) → Labelled (Complex F) → F.Float → List String
  where_power_unbalanced pq_injections_all calculated_power tol =
      let errors = arrays.plus pq_injections_all calculated_power in
      names_above tol errors.values errors.ids

module _ {F : Floats} (e : Engine F) (arrays : Arrays F) where
  unfoldable pub get_current_data : Coo (Complex F) → Exec (Sim F) (CurrentData F)
  get_current_data y = do
    feeder_voltages ← get_voltages_actual e
    pq_load ← get_pqs_load e arrays.sortby_ids false
    pq_pv ← get_pqs_pv e arrays.sortby_ids false
    pq_gen ← get_pqs_gen e arrays.sortby_ids false
    pq_cap ← get_pqs_cap e arrays.sortby_ids false
    injections ← lift (
        get_powers F arrays.real_units arrays.imag_units (negated arrays pq_load)
          (negated arrays pq_pv) (negated arrays pq_gen) (negated arrays pq_cap))
    ids ← gets (λ s. s.all_node_names)
    let sums =
        arrays.plus
          (arrays.plus (arrays.plus (agg_to_ids arrays pq_load ids) (agg_to_ids arrays pq_pv ids))
            (agg_to_ids arrays pq_gen ids))
          (agg_to_ids arrays pq_cap ids)
    let calculated_power = power_of arrays y feeder_voltages
    sources ← gets (λ s. s.source_indexes)
    supplied ← lift (arrays.at calculated_power sources)
    pq_injections_all ← lift (arrays.set_at sums sources (arrays.negate supplied))
    load_y_matrix ← get_load_y_matrix e
    pure (record {
      feeder_voltages = feeder_voltages;
      pq_injections_all = pq_injections_all;
      calculated_power = calculated_power;
      injections = injections;
      load_y_matrix = load_y_matrix;
    })
