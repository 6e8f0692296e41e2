-- ===== src/Cosim/Tests.antt =====
-- The theorems on what the feeder federate publishes, at small arrays.
use sgidal_example.Prelude.{ok, ℕ, String, ◌≡◌, refl, none, some, List, [], ◌∷◌}
use sgidal_example.Samples.{whole}
use sgidal_example.Feeder.Power.{Pq}
use sgidal_example.Cosim.{
  MeasurementArray, joined, gather, concat_measurement_arrays, xarray_to_powers, get_powers,
}
use sgidal_example.Cosim.Concat.{IsJoined, concat_measurement_arrays-IsJoined, get_powers-append}

abbrev array : List ℕ → List String → MeasurementArray ℕ
array values ids = record {
  values = values;
  ids = ids;
  equipment_ids = some ids;
  units = "kW";
  accuracy = none;
  bad_data_threshold = none;
  time = none;
}

concat_measurement_arrays-IsJoined_example :
    IsJoined
      (array (1 ∷ 2 ∷ []) ("a" ∷ "b" ∷ []) ∷ array (3 ∷ []) ("c" ∷ []) ∷ [])
      (array (1 ∷ 2 ∷ 3 ∷ []) ("a" ∷ "b" ∷ "c" ∷ []))
unfolding concat_measurement_arrays joined gather
concat_measurement_arrays-IsJoined_example =
    concat_measurement_arrays-IsJoined
      (array (1 ∷ 2 ∷ []) ("a" ∷ "b" ∷ []) ∷ array (3 ∷ []) ("c" ∷ []) ∷ [])
      (array (1 ∷ 2 ∷ 3 ∷ []) ("a" ∷ "b" ∷ "c" ∷ []))
      ((refl, refl, tt, tt), ((refl, refl, tt, tt), tt)) refl

abbrev power : ℕ → String → Pq whole
power n id = record { value = (n, n); equipment_id = id; id = id }

get_powers-append_example :
    get_powers whole "kW" "kVAR" (power 1 "a" ∷ []) (power 2 "b" ∷ []) [] (power 3 "c" ∷ [])
    ≡ ok (xarray_to_powers whole "kW" "kVAR" (power 1 "a" ∷ power 2 "b" ∷ power 3 "c" ∷ []))
get_powers-append_example =
    get_powers-append whole "kW" "kVAR" (power 1 "a" ∷ []) (power 2 "b" ∷ []) [] (power 3 "c" ∷ [])
