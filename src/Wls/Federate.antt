-- ===== src/Wls/Federate.antt =====
-- `StateEstimatorFederate.run` and `destroy`: the loop over the messages. What HELICS answers, one
-- round of the loop after another, is a list; a message is what its JSON was parsed to.
use sgidal_example.Prelude.{
  ltb, if◌then◌else◌, length, get_elem?, or_raise, Result, value_error, index_error, type_error, ok,
  raise, ℕ, suc, ◌+◌, ◌*◌, String, Bool, true, Option, none, some, List, [], ◌∷◌, ◌++◌, str_eq,
}
use sgidal_example.Prelude
use sgidal_example.Prelude.Exec.{Exec, pure, lift, modify, ◌>>=◌, ◌>>◌}
use sgidal_example.Floats.{Floats}
use sgidal_example.Indexing.{get_indices}
use sgidal_example.Recorder.{Measurement}
use sgidal_example.Wls.Arrays.{Numpy, take_at, broadcast}
use sgidal_example.Wls.Estimator.{
  Admittance, dense, sparse, other, Topology, AlgorithmParameters, scalar, array, Angles, flat,
  nested, LeastSquares, state_estimator,
}

pub record Inputs (F : Floats) : Type 0 where
  pub voltages : Measurement F
  pub power_p : Measurement F
  pub power_q : Measurement F

-- A round of the loop: the voltages are updated, or they are not and HELICS grants a time below the
-- maximum, or the maximum.
pub data Round (F : Floats) : Type 0 where
  updated : Inputs F → Round F
  granted : Round F
  max_time : Round F

pub data Publication (F : Floats) : Type 0 where
  voltage_mag : Measurement F → Publication F
  voltage_angle : Measurement F → Publication F

pub record Estimator (F : Floats) : Type 0 where
  pub initial_ang : Option (List F.Float)
  pub initial_v : Option F.Float
  pub published : List (Publication F)
  pub disconnected : Bool

-- The last index at which the slack bus stands, from index `i` on.
unfoldable pub slack_from : ℕ → List String → List String → Option ℕ → Result (Option ℕ)
slack_from i [] slack_bus found = ok found
slack_from i (x ∷ ids) slack_bus found =
    Prelude.◌>>=◌ (or_raise (get_elem? slack_bus 0) index_error)
      (λ slack. slack_from (suc i) ids slack_bus (if str_eq x slack then some i else found))

module _ {F : Floats} where
  -- Raising a text is a `TypeError` itself.
  unfoldable pub check_admittance : Admittance F → Result (Unit {0})
  check_admittance (dense ids rows) = ok tt
  check_admittance (sparse from_equipment to_equipment values) = ok tt
  check_admittance other = raise type_error

  unfoldable pub publish : Publication F → Exec (Estimator F) (Unit {0})
  publish p = modify (λ s. record s { published = s.published ++ p ∷ [] })

  unfoldable pub destroy : Exec (Estimator F) (Unit {0})
  destroy = modify (λ s. record s { disconnected = true })

  -- The list of values that the model of the message takes: `float` takes an array of one value.
  unfoldable pub angle_values : Angles F → Result (List F.Float)
  angle_values (flat xs) = ok xs
  angle_values (nested (x ∷ [])) = ok (x ∷ [])
  angle_values (nested xs) = raise value_error

  -- `if self.initial_ang is None: ...`
  unfoldable pub start_angle : Topology F → Estimator F → Estimator F
  start_angle topology s = elim s.initial_ang as (λ _. Estimator F) [
    | some xs ↦ s
    | none ↦ record s { initial_ang = some topology.base_angles }
  ]

  -- The two publications of a round.
  unfoldable pub publish_both :
      Topology F → Inputs F → List F.Float × Angles F → Exec (Estimator F) (Unit {0})
  publish_both topology m found = do
    publish (voltage_mag (record { ids = topology.ids; values = found.0; time = m.voltages.time }))
    angles ← lift (angle_values found.1)
    publish (voltage_angle (record { ids = topology.ids; values = angles; time = m.voltages.time }))

module _ {F : Floats} (np : Numpy F) where
  -- The flat start, where there are more measurements than unknowns, or the average one.
  unfoldable pub first_voltage : Topology F → Inputs F → Result F.Float
  first_voltage topology m =
      if ltb (length topology.ids * 2)
        (length m.power_p.ids + length m.voltages.ids + length m.power_q.ids)
      then ok (F.from_ℕ 1)
      else Prelude.◌>>=◌ (get_indices m.voltages.ids topology.ids) (λ known_v.
        Prelude.◌>>=◌ (take_at topology.base_voltages known_v) (λ bases.
          Prelude.◌>>=◌ (broadcast F.over m.voltages.values bases) (λ ratios. ok (np.mean ratios))))

  -- `if self.initial_V is None: ...`
  unfoldable pub start_voltage :
      Topology F → Inputs F → Estimator F → Result (Unit {0}) × Estimator F
  start_voltage topology m s = elim s.initial_v as (λ _. Result (Unit {0}) × Estimator F) [
    | some x ↦ (ok tt, s)
    | none ↦ elim (first_voltage topology m) as (λ _. Result (Unit {0}) × Estimator F) [
      | raise e ↦ (raise e, s)
      | ok x ↦ (ok tt, record s { initial_v = some x })
    ]
  ]

  module _ (least_squares : LeastSquares F) (parameters : AlgorithmParameters F) where
    -- The estimate, from the initial values that the object has.
    unfoldable pub estimate :
        Topology F → Option ℕ → Inputs F → Estimator F → Result (List F.Float × Angles F)
    estimate topology slack_index m s =
        Prelude.◌>>=◌ (or_raise s.initial_v type_error) (λ initial_v.
          Prelude.◌>>=◌ (or_raise s.initial_ang type_error) (λ initial_ang.
            state_estimator np least_squares parameters topology m.power_p m.power_q m.voltages
              (array initial_ang) (scalar initial_v) slack_index))

    unfoldable pub estimate_and_publish :
        Topology F → Option ℕ → Inputs F → Exec (Estimator F) (Unit {0})
    estimate_and_publish topology slack_index m = do
      found ← λ s. (estimate topology slack_index m s, s)
      publish_both topology m found

    -- The body of the loop where the voltages are updated.
    unfoldable pub handle : Topology F → Option ℕ → Inputs F → Exec (Estimator F) (Unit {0})
    handle topology slack_index m = do
      known_v ← lift (get_indices m.voltages.ids topology.ids)
      start_voltage topology m
      modify (start_angle topology)
      estimate_and_publish topology slack_index m

    unfoldable pub loop : Topology F → Option ℕ → List (Round F) → Exec (Estimator F) (Unit {0})
    loop topology slack_index [] = pure tt
    loop topology slack_index (max_time ∷ rounds) = destroy
    loop topology slack_index (granted ∷ rounds) = loop topology slack_index rounds
    loop topology slack_index (updated m ∷ rounds) =
        let rest = loop topology slack_index rounds in handle topology slack_index m >> rest

    -- `below`: the time that is granted first is below the maximum.
    unfoldable pub run : Topology F → Bool → List (Round F) → Exec (Estimator F) (Unit {0})
    run topology below rounds = do
      modify (λ s. record s { initial_ang = none; initial_v = none })
      lift (check_admittance topology.admittance)
      slack_index ← lift (slack_from 0 topology.ids topology.slack_bus none)
      if below then loop topology slack_index rounds else destroy
