-- ===== src/Measuring/Tests.antt =====
-- The relay at three measurements.
use sgidal_example.Prelude.{
  length, All, mem, ok, ℕ, suc, String, ◌≡◌, refl, sym, ap, true, false, some, List, [], ◌∷◌,
}
use sgidal_example.Samples.{whole}
use sgidal_example.Measuring.{MeasurementArray, reindex, Relay, run}
use sgidal_example.Measuring.Reindexed.{IsPicked, reindex-IsPicked}
use sgidal_example.Measuring.Relayed.{IsReadable, ids_of, grants_of, run_publishes}

abbrev message : MeasurementArray ℕ
message = record {
  values = 5 ∷ 6 ∷ 7 ∷ [];
  ids = "A.1" ∷ "B.1" ∷ "C.1" ∷ [];
  units = "kV";
  time = "noon";
  equipment_ids = some ("A" ∷ "B" ∷ "C" ∷ []);
}

abbrev file : List String
file = "C.1" ∷ "A.1" ∷ []

-- A generator that counts its draws.
abbrev counting : ℕ → ℕ → ℕ × ℕ
counting g scale = (g, suc g)

abbrev relay : Relay whole ℕ
relay = record {
  rng = 0;
  additive_noise_stddev = 1;
  multiplicative_noise_stddev = 1;
  published = [];
  disconnected = false;
}

reindex-IsPicked_example :
    (r : MeasurementArray ℕ) × (reindex message file ≡ ok r)
    × (r.ids ≡ file)
    × (r.units ≡ "kV")
    × (r.time ≡ "noon")
    × (length r.values ≡ 2)
    × IsPicked message.ids message.values file r.values
reindex-IsPicked_example =
    reindex-IsPicked message file (refl, (refl, (refl, tt))) refl
      (λ equipment e. let same : ("A" ∷ "B" ∷ "C" ∷ []) ≡ equipment = cc in sym (ap length same))
      (refl, (refl, tt))

run_publishes_example :
    (end : Relay whole ℕ) × (run counting (grants_of ((message, file) ∷ (message, []) ∷ [])) relay
      ≡ (ok tt, end))
    × (end.disconnected ≡ true)
    × (ids_of end.published ≡ file ∷ [] ∷ [])
run_publishes_example =
    run_publishes counting ((message, file) ∷ (message, []) ∷ []) relay
      (readable file (refl, (refl, tt)), (readable [] tt, tt))
  where
    readable :
        (names : List String)
        → All (λ name. mem name message.ids ≡ true) names
        → IsReadable (message, names)
    readable names h = (
      refl,
      λ equipment e. let same : ("A" ∷ "B" ∷ "C" ∷ []) ≡ equipment = cc in sym (ap length same),
      h,
    )
