-- ===== src/Recorder/Tests.antt =====
-- The recorder's theorem at two messages.
use sgidal_example.Prelude.{
  Result, decimal, Dict, ok, ℕ, String, ◌≡◌, refl, true, false, Option, none, some, List, [], ◌∷◌,
}
use sgidal_example.Samples.{whole}
use sgidal_example.Recorder.{Cell, Measurement, Writer, measurement_dict, run}
use sgidal_example.Recorder.Recorded.{grants_of, run-recorded}

abbrev message : ℕ → Measurement whole
message n = record { ids = "a" ∷ []; values = n ∷ []; time = decimal n }

abbrev any_batch : List String → Dict (Cell whole) → Result (Unit {0})
any_batch schema row = ok tt

abbrev any_file : Option (Writer whole) → Result (Unit {0})
any_file w = ok tt

run-recorded_example :
    run any_batch any_file
      (grants_of (message 1 ∷ message 2 ∷ []))
      (record { writer = none; streamwriter = none; destroyed = false })
    ≡ (
      ok tt,
      record {
        writer = some (record {
          schema = "a" ∷ "time" ∷ [];
          batches = measurement_dict (message 1) ∷ measurement_dict (message 2) ∷ [];
          closed = true;
        });
        streamwriter = some (record {
          schema = "a" ∷ "time" ∷ [];
          batches = measurement_dict (message 1) ∷ measurement_dict (message 2) ∷ [];
          closed = true;
        });
        destroyed = true;
      },
    )
run-recorded_example =
    run-recorded any_batch any_file (λ w. refl) (message 1) (message 2 ∷ []) (refl, (refl, tt))
