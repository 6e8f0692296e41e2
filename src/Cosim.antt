-- ===== src/Cosim.antt =====
-- LocalFeeder/sender_cosim.py: what the feeder federate publishes.
pub mod Concat
pub mod Leaving
pub mod Balanced
pub mod Initial
pub mod Current
pub mod Loop
mod Tests
mod RoundTests
use sgidal_example.Prelude.{
  if◌then◌else◌, get_elem?, all, assert, or_raise, map_result, Result, value_error, index_error, ok,
  raise, ℕ, String, Bool, true, false, Option, none, some, List, [], ◌∷◌, ◌++◌, map, str_eq, ◌>>=◌,
}
use sgidal_example.Floats.{Floats, Complex}
use sgidal_example.Feeder.Engine.{Coo, Entry}
use sgidal_example.Feeder.Power.{Pq}

-- `MeasurementArray`, and `EquipmentNodeArray` where there are `equipment_ids`.
pub record MeasurementArray (A : Type 0) : Type 0 where
  pub values : List A
  pub ids : List String
  pub equipment_ids : Option (List String)
  pub units : String
  pub accuracy : Option (List A)
  pub bad_data_threshold : Option (List A)
  pub time : Option String

-- `p.time == q.time`
abbrev pub same_time : Option String → Option String → Bool
same_time none none = true
same_time (some t) (some u) = str_eq t u
same_time none (some u) = false
same_time (some t) none = false

-- `[e for xs in xss for e in xs]`
abbrev pub flatten : {A : Type 0} → List (List A) → List A
flatten [] = []
flatten (xs ∷ xss) = xs ++ flatten xss

-- The same for lists that may be missing: `None` as soon as one is.
unfoldable pub gather : {A : Type 0} → List (Option (List A)) → Option (List A)
gather [] = some []
gather (none ∷ rest) = none
gather (some xs ∷ rest) = elim (gather rest) [ none ↦ none | some ys ↦ some (xs ++ ys) ]

abbrev pub has_value : {A : Type 0} → Option A → Bool
has_value none = false
has_value (some a) = true

module _ {A : Type 0} where
  -- The array that is built; a class that wants `equipment_ids` is not satisfied without.
  unfoldable pub joined :
      MeasurementArray A → List (MeasurementArray A) → Result (MeasurementArray A)
  joined p ps =
      let whole : Option (List String) → MeasurementArray A = λ equipment_ids. record {
        values = flatten (map (λ (q : MeasurementArray A). q.values) ps);
        ids = flatten (map (λ (q : MeasurementArray A). q.ids) ps);
        equipment_ids = equipment_ids;
        units = p.units;
        accuracy = gather (map (λ (q : MeasurementArray A). q.accuracy) ps);
        bad_data_threshold = gather (map (λ (q : MeasurementArray A). q.bad_data_threshold) ps);
        time = p.time;
      } in
      elim (gather (map (λ (q : MeasurementArray A). q.equipment_ids) ps)) [
        | some equipment ↦ ok (whole (some equipment))
        | none ↦ if has_value p.equipment_ids then raise value_error else ok (whole none)
      ]

  unfoldable pub concat_measurement_arrays : List (MeasurementArray A) → Result (MeasurementArray A)
  concat_measurement_arrays [] = raise index_error
  concat_measurement_arrays (p ∷ ps) = assert (all (λ q. str_eq p.units q.units) (p ∷ ps)) >>= λ _.
      assert (all (λ q. same_time p.time q.time) (p ∷ ps)) >>= λ _. joined p (p ∷ ps)

-- `AdmittanceSparse`
pub record AdmittanceSparse (A : Type 0) : Type 0 where
  pub from_equipment : List String
  pub to_equipment : List String
  pub admittance_list : List A

-- `unique_ids[i]`
abbrev pub id_at : List String → ℕ → Result String
id_at unique_ids i = or_raise (get_elem? unique_ids i) index_error

unfoldable pub sparse_to_admittance_sparse :
    {A : Type 0} → Coo A → List String → Result (AdmittanceSparse A)
sparse_to_admittance_sparse {A = A} array unique_ids =
    map_result (λ (x : Entry A). id_at unique_ids x.row) array.entries >>= λ from_equipment.
    map_result (λ (x : Entry A). id_at unique_ids x.col) array.entries >>= λ to_equipment.
    ok (record {
      from_equipment = from_equipment;
      to_equipment = to_equipment;
      admittance_list = map (λ (x : Entry A). x.value) array.entries;
    })

module _ (F : Floats) (pi : F.Float) where
  -- The multiples of a third of `pi`, from -3 to 3.
  abbrev pub test_angles : List F.Float
  test_angles =
      map (λ x. F.over (F.times x pi) (F.from_ℕ 3))
        (F.neg (F.from_ℕ 3)
          ∷ F.neg (F.from_ℕ 2)
          ∷ F.neg (F.from_ℕ 1)
          ∷ F.from_ℕ 0
          ∷ F.from_ℕ 1
          ∷ F.from_ℕ 2
          ∷ F.from_ℕ 3
          ∷ [])

  unfoldable pub true_phase : F.Float → List F.Float → Result F.Float
  true_phase angle [] = raise value_error
  true_phase angle (test_angle ∷ rest) =
      let others = true_phase angle rest in
      if F.le (F.abs (F.minus angle test_angle)) (F.over pi (F.from_ℕ 6)) then ok angle else others

  unfoldable pub get_true_phases : F.Float → Result F.Float
  get_true_phases angle = true_phase angle test_angles

module _ (F : Floats) where
  -- One half of `xarray_to_powers`.
  abbrev pub powers_of : String → (Complex F → F.Float) → List (Pq F) → MeasurementArray F.Float
  powers_of units part pqs = record {
    values = map (λ (x : Pq F). part x.value) pqs;
    ids = map (λ (x : Pq F). x.id) pqs;
    equipment_ids = some (map (λ (x : Pq F). x.equipment_id) pqs);
    units = units;
    accuracy = none;
    bad_data_threshold = none;
    time = none;
  }

-- The units that `PowersReal` and `PowersImaginary` have by default are the message types'.
module _ (F : Floats) (real_units imag_units : String) where
  unfoldable pub xarray_to_powers :
      List (Pq F) → MeasurementArray F.Float × MeasurementArray F.Float
  xarray_to_powers pqs =
      (powers_of F real_units (λ z. z.0) pqs, powers_of F imag_units (λ z. z.1) pqs)

  unfoldable pub get_powers :
      List (Pq F)
      → List (Pq F)
      → List (Pq F)
      → List (Pq F)
      → Result (MeasurementArray F.Float × MeasurementArray F.Float)
  get_powers pq_load pq_pv pq_gen pq_cap =
      let l = xarray_to_powers pq_load in
      let p = xarray_to_powers pq_pv in
      let g = xarray_to_powers pq_gen in
      let c = xarray_to_powers pq_cap in
      concat_measurement_arrays (l.0 ∷ p.0 ∷ g.0 ∷ c.0 ∷ []) >>= λ power_real.
      concat_measurement_arrays (l.1 ∷ p.1 ∷ g.1 ∷ c.1 ∷ []) >>= λ power_imag.
      ok (power_real, power_imag)
