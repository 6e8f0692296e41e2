-- ===== src/Recorder.antt =====
-- recorder/record_subscription.py: the rows that a recorder writes.
pub mod Recorded
mod Tests
use sgidal_example.Prelude.{
  Result, Dict, insert, exception, ok, raise, String, Bool, true, false, Option, none, some, List,
  [], ◌∷◌, ◌++◌,
}
use sgidal_example.Prelude
use sgidal_example.Prelude.Exec.{Exec, pure, lift, gets, modify, ◌>>=◌, ◌>>◌}
use sgidal_example.Floats.{Floats}

-- A value of a row: a measurement, or the text of the time.
pub data Cell (F : Floats) : Type 0 where
  number : F.Float → Cell F
  text : String → Cell F

-- What is read of the message: names, values, and the time as text.
pub record Measurement (F : Floats) : Type 0 where
  pub ids : List String
  pub values : List F.Float
  pub time : String

-- What HELICS answers to a request for time: a time below the maximum, with the message, or the maximum.
pub data Grant (F : Floats) : Type 0 where
  granted : Measurement F → Grant F
  max_time : Grant F

-- A writer of Arrow batches: the columns that its schema has, what it has written, oldest first.
pub record Writer (F : Floats) : Type 0 where
  pub schema : List String
  pub batches : List (Dict (Cell F))
  pub closed : Bool

-- The recorder: its two writers, where they are open, and whether it has left HELICS.
pub record Recorder (F : Floats) : Type 0 where
  pub writer : Option (Writer F)
  pub streamwriter : Option (Writer F)
  pub destroyed : Bool

module _ {F : Floats} where
  -- `{key: value for key, value in zip(ids, values)}`
  unfoldable pub zip_cells : List String → List F.Float → Dict (Cell F) → Dict (Cell F)
  zip_cells (id ∷ ids) (v ∷ vs) d = zip_cells ids vs (insert id (number v) d)
  zip_cells _ _ d = d

  -- `measurement_dict`
  unfoldable pub measurement_dict : Measurement F → Dict (Cell F)
  measurement_dict m = insert "time" (text m.time) (zip_cells m.ids m.values [])

  abbrev pub new_writer : Measurement F → Writer F
  new_writer m = record { schema = m.ids ++ "time" ∷ []; batches = []; closed = false }

  -- The first round opens both writers.
  unfoldable pub open_writers : Measurement F → Recorder F → Recorder F
  open_writers m s = elim s.writer as (λ _. Recorder F) [
    | none ↦ record s { writer = some (new_writer m); streamwriter = some (new_writer m) }
    | some w ↦ s
  ]

  abbrev pub close : Option (Writer F) → Option (Writer F)
  close none = none
  close (some w) = some (record w { closed = true })

-- `write_batch` refuses a batch that does not fit the schema, which is Arrow's to say; so is whether
-- the file that is closed can be read back and written as CSV.
module _ {F : Floats} (check_batch : List String → Dict (Cell F) → Result (Unit {0}))
    (to_csv : Option (Writer F) → Result (Unit {0})) where
  unfoldable pub write_batch : Dict (Cell F) → Option (Writer F) → Result (Option (Writer F))
  write_batch row none = raise exception
  write_batch row (some w) =
      Prelude.◌>>=◌ (check_batch w.schema row)
        (λ _. ok (some (record w { batches = w.batches ++ row ∷ [] })))

  unfoldable pub record_row : Measurement F → Recorder F → Result (Unit {0}) × Recorder F
  record_row m s =
      let opened = open_writers m s in
      let row = measurement_dict m in
      elim (write_batch row opened.writer) as (λ _. Result (Unit {0}) × Recorder F) [
        | raise e ↦ (raise e, opened)
        | ok w ↦
            elim (write_batch row opened.streamwriter) as (λ _. Result (Unit {0}) × Recorder F) [
              | raise e ↦ (raise e, record opened { writer = w })
              | ok v ↦ (ok tt, record opened { writer = w; streamwriter = v })
            ]
      ]

  unfoldable pub finish : Exec (Recorder F) (Unit {0})
  finish = do
    modify (λ s. record s { writer = close s.writer; streamwriter = close s.streamwriter })
    closed ← gets (λ s. s.writer)
    lift (to_csv closed)
    modify (λ s. record s { destroyed = true })

  -- The loop, for the answers that HELICS gives one after another. After the last one it waits.
  unfoldable pub run : List (Grant F) → Exec (Recorder F) (Unit {0})
  run [] = pure tt
  run (max_time ∷ grants) = finish
  run (granted m ∷ grants) = let rest = run grants in record_row m >> rest
