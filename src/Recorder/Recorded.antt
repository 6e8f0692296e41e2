-- ===== src/Recorder/Recorded.antt =====
-- What the recorder's loop leaves behind.
use sgidal_example.Prelude.{
  All, Result, Dict, ok, String, ◌≡◌, refl, ap, ◌∙◌, true, false, Option, none, some, List, [], ◌∷◌,
  ◌++◌, map,
}
use mathlib.Core.List.{append-nil, append_assoc}
use sgidal_example.Prelude.Exec.{◌>>◌}
use sgidal_example.Floats.{Floats}
use sgidal_example.Recorder.{
  Cell, Measurement, Grant, granted, max_time, Writer, Recorder, measurement_dict, open_writers,
  write_batch, record_row, finish, run,
}

abbrev pub grants_of : {F : Floats} → List (Measurement F) → List (Grant F)
grants_of [] = max_time ∷ []
grants_of (m ∷ ms) = granted m ∷ grants_of ms

module _ {F : Floats} (check_batch : List String → Dict (Cell F) → Result (Unit {0}))
    (to_csv : Option (Writer F) → Result (Unit {0}))
    (readable : (w : Writer F) → to_csv (some w) ≡ ok tt) where
  abbrev rows_of : List (Measurement F) → List (Dict (Cell F))
  rows_of = map measurement_dict

  -- A closed writer with these batches.
  abbrev done : Writer F → List (Dict (Cell F)) → Option (Writer F)
  done w rows = some (record w { batches = rows; closed = true })

  -- The writer with one more batch.
  abbrev more : Writer F → Measurement F → Writer F
  more w m = record w { batches = w.batches ++ measurement_dict m ∷ [] }

  write_batch-fits :
      (m : Measurement F) (w : Writer F)
      → check_batch w.schema (measurement_dict m) ≡ ok tt
      → write_batch check_batch to_csv (measurement_dict m) (some w) ≡ ok (some (more w m))
  unfolding write_batch
  write_batch-fits m w h = rw (h) refl

  record_row-open :
      (m : Measurement F) (w v : Writer F)
      → check_batch w.schema (measurement_dict m) ≡ ok tt
      → check_batch v.schema (measurement_dict m) ≡ ok tt
      → record_row check_batch to_csv m
          (record { writer = some w; streamwriter = some v; destroyed = false })
        ≡ (
          ok tt,
          record { writer = some (more w m); streamwriter = some (more v m); destroyed = false },
        )
  unfolding record_row open_writers
  record_row-open m w v h h' = rw (write_batch-fits m w h, write_batch-fits m v h', record_row) refl

  run-granted :
      (m : Measurement F) (grants : List (Grant F)) (s t : Recorder F)
      → record_row check_batch to_csv m s ≡ (ok tt, t)
      → run check_batch to_csv (granted m ∷ grants) s ≡ run check_batch to_csv grants t
  unfolding run
  run-granted m grants s t h =
      ap
        (λ (p : Result (Unit {0}) × Recorder F).
          ((λ (u : Recorder F). p) >> run check_batch to_csv grants) s)
        h

  run-open :
      (ms : List (Measurement F)) (w v : Writer F)
      → All (λ m. check_batch w.schema (measurement_dict m) ≡ ok tt) ms
      → All (λ m. check_batch v.schema (measurement_dict m) ≡ ok tt) ms
      → run check_batch to_csv
          (grants_of ms)
          (record { writer = some w; streamwriter = some v; destroyed = false })
        ≡ (
          ok tt,
          record {
            writer = done w (w.batches ++ rows_of ms);
            streamwriter = done v (v.batches ++ rows_of ms);
            destroyed = true;
          },
        )
  unfolding run finish
  run-open [] w v h h' =
      rw (readable (record w { closed = true }), append-nil w.batches, append-nil v.batches) refl
  run-open (m ∷ ms) w v h h' =
      let rest =
        run-open ms (record w { batches = w.batches ++ measurement_dict m ∷ [] })
          (record v { batches = v.batches ++ measurement_dict m ∷ [] }) h.1 h'.1 in
      let left = append_assoc w.batches (measurement_dict m ∷ []) (rows_of ms) in
      let right = append_assoc v.batches (measurement_dict m ∷ []) (rows_of ms) in
      run-granted m (grants_of ms) _ _ (record_row-open m w v h.0 h'.0) ∙ rest ∙ λ i. (
        ok tt,
        record { writer = done w (left i); streamwriter = done v (right i); destroyed = true },
      )

  -- Where each row fits the columns of the first message, and the file can be read back: both writers
  -- have one row for each message, in order, under the names of the first; they are closed and the
  -- recorder has left HELICS.
  pub run-recorded :
      (m : Measurement F) (ms : List (Measurement F))
      → All (λ q. check_batch (m.ids ++ "time" ∷ []) (measurement_dict q) ≡ ok tt) (m ∷ ms)
      → let w : Writer F = record {
        schema = m.ids ++ "time" ∷ [];
        batches = map measurement_dict (m ∷ ms);
        closed = true;
      } in
        run check_batch to_csv
          (grants_of (m ∷ ms))
          (record { writer = none; streamwriter = none; destroyed = false })
        ≡ (ok tt, record { writer = some w; streamwriter = some w; destroyed = true })
  unfolding record_row open_writers
  run-recorded m ms h =
      let w : Writer F = record {
        schema = m.ids ++ "time" ∷ [];
        batches = measurement_dict m ∷ [];
        closed = false;
      } in
      let empty : Writer F = record w { batches = [] } in
      run-granted m (grants_of ms) _
        (record { writer = some w; streamwriter = some w; destroyed = false })
        (record_row-open m empty empty h.0 h.0)
      ∙ run-open ms w w h.1 h.1
