-- ===== src/Measuring.antt =====
-- measuring_federate/measuring_federate.py: measurements picked by name, with noise, and relayed.
pub mod Reindexed
pub mod Relayed
mod Tests
use sgidal_example.Prelude.{
  get_elem?, or_raise, map_result, Result, Dict, lookup, key_error, index_error, ok, ℕ, String,
  Bool, true, Option, none, some, List, [], ◌∷◌, ◌++◌,
}
use sgidal_example.Prelude
use sgidal_example.Prelude.Exec.{Exec, pure, lift, gets, modify, ◌>>=◌, ◌>>◌}
use sgidal_example.Floats.{Floats}
use sgidal_example.Indexing.{index_map}

-- `MeasurementArray`, and `EquipmentNodeArray` where there are `equipment_ids`. The accuracy and the
-- threshold are not read here, and a new array has none.
pub record MeasurementArray (A : Type 0) : Type 0 where
  pub values : List A
  pub ids : List String
  pub units : String
  pub time : String
  pub equipment_ids : Option (List String)

-- `[xs[inv_map[i]] for i in indices]`
unfoldable pub pick_all : {A : Type 0} → Dict ℕ → List A → List String → Result (List A)
pick_all inv_map xs indices =
    map_result
      (λ i.
        Prelude.◌>>=◌ (or_raise (lookup i inv_map) key_error)
          (λ j. or_raise (get_elem? xs j) index_error))
      indices

module _ {A : Type 0} where
  unfoldable pub reindex : MeasurementArray A → List String → Result (MeasurementArray A)
  reindex m indices =
      let inv_map = index_map m.ids in
      Prelude.◌>>=◌ (pick_all inv_map m.values indices) (λ values. elim m.equipment_ids [
        | none ↦ ok (record {
          values = values;
          ids = indices;
          units = m.units;
          time = m.time;
          equipment_ids = none;
        })
        | some equipment ↦ Prelude.◌>>=◌ (pick_all inv_map equipment indices) (λ picked.
            ok (record {
              values = values;
              ids = indices;
              units = m.units;
              time = m.time;
              equipment_ids = some picked;
            }))
      ])

  -- `list(map(f, values))` for an `f` that changes the generator of random numbers.
  unfoldable pub map_values : {G : Type 0} → (G → A → A × G) → G → List A → List A × G
  map_values f g [] = ([], g)
  map_values f g (x ∷ xs) =
      let first = f g x in let rest = map_values f first.1 xs in (first.0 ∷ rest.0, rest.1)

  unfoldable pub apply :
      {G : Type 0} → (G → A → A × G) → G → MeasurementArray A → MeasurementArray A × G
  apply f g m = let mapped = map_values f g m.values in (record m { values = mapped.0 }, mapped.1)

-- numpy's generator is a parameter: `normal g scale` is a draw, and the generator after it.
module _ (F : Floats) {G : Type 0} (normal : G → F.Float → F.Float × G) where
  -- The function that `transform` applies: the multiplicative draw comes first.
  unfoldable pub noisy : F.Float → F.Float → G → F.Float → F.Float × G
  noisy multiplicative additive g x =
      let first = normal g multiplicative in
      let second = normal first.1 additive in
      (F.plus (F.times (F.plus (F.from_ℕ 1) first.0) x) second.0, second.1)

-- The federate: its generator, and what it has published, oldest first.
pub record Relay (F : Floats) (G : Type 0) : Type 0 where
  pub rng : G
  pub additive_noise_stddev : F.Float
  pub multiplicative_noise_stddev : F.Float
  pub published : List (MeasurementArray F.Float)
  pub disconnected : Bool

-- What HELICS answers to a request for time: a time below the maximum, with the message and the
-- content of the measurement file at that time, or the maximum.
pub data Grant (F : Floats) : Type 0 where
  granted : MeasurementArray F.Float → List String → Grant F
  max_time : Grant F

module _ {F : Floats} {G : Type 0} (normal : G → F.Float → F.Float × G) where
  unfoldable pub transform :
      MeasurementArray F.Float → List String → Exec (Relay F G) (MeasurementArray F.Float)
  transform m unique_ids = do
    new_array ← lift (reindex m unique_ids)
    noised ← gets (λ s.
        apply (noisy F normal s.multiplicative_noise_stddev s.additive_noise_stddev) s.rng
          new_array)
    modify (λ s. record s { rng = noised.1 })
    pure noised.0

  unfoldable pub publish : MeasurementArray F.Float → Exec (Relay F G) (Unit {0})
  publish m = modify (λ s. record s { published = s.published ++ m ∷ [] })

  -- `destroy`
  unfoldable pub destroy : Exec (Relay F G) (Unit {0})
  destroy = modify (λ s. record s { disconnected = true })

  -- The loop, for the answers that HELICS gives one after another. After the last one it waits.
  unfoldable pub run : List (Grant F) → Exec (Relay F G) (Unit {0})
  run [] = pure tt
  run (max_time ∷ grants) = destroy
  run (granted measurement file ∷ grants) =
      let rest = run grants in
      do measurement_transformed ← transform measurement file; publish measurement_transformed; rest
