-- ===== src/Servers.antt =====
-- The web servers of the components (LocalFeeder/server.py, measuring_federate/server.py,
-- recorder/server.py): what a handler replies. Files, archives and requests are parameters, with the
-- exception that they raise. A 500 has the traceback as its text, which is left out.
use sgidal_example.Prelude.{
  if◌then◌else◌, Result, decimal, http_error, ok, raise, ℕ, String, append, Bool, ◌&&◌, Option,
  none, some, List, [], ◌∷◌, str_eq,
}
use sgidal_example.Broker.{Reply}

-- A handler that returns nothing is answered with the status 200 and `null`.
pub data Outcome : Type 0 where
  replied : Reply → Outcome
  nothing : Outcome

-- An `HTTPException` that is raised.
abbrev pub failed : ℕ → String → Reply
failed status_code detail = record { status_code = status_code; detail = detail }

-- `upload_profiles`: `unpacked` is the result of writing and extracting the archive, which tells
-- whether both directories are there. The exceptions that are constructed are not raised, neither for
-- another type of file nor for a wrong structure.
unfoldable pub upload_profiles : String → Result (Bool × Bool) → Outcome
upload_profiles filename (raise e) = nothing
upload_profiles filename (ok (load_profiles, pv_profiles)) =
    if load_profiles && pv_profiles
    then replied
        (record { status_code = 200; detail = append "File uploaded to server: " filename })
    else nothing

-- `upload_model`, by whether the archive has a master.dss.
unfoldable pub upload_model : String → Result Bool → Outcome
upload_model filename (raise e) = nothing
upload_model filename (ok master) =
    if master
    then replied
        (record { status_code = 200; detail = append "File uploaded to server: " filename })
    else nothing

-- `timeout_middleware`, where the handler has not answered in time.
unfoldable pub timed_out : String → Reply
timed_out endpoint =
    if str_eq endpoint "sensor"
    then failed 504
        "Request processing time exceeded limit. Upload a model and associated profiles before simulation before starting the simulation."
    else failed 504 "Request processing time exceeded limit"

-- `build_url` of the measuring federate: no slash at the end, and another variable of the environment.
unfoldable pub sensor_url : Option String → String → ℕ → String
sensor_url service host port =
    let dotted = elim service as (λ _. String) [
      | none ↦ ""
      | some name ↦ if str_eq name "" then "" else append "." name
    ] in
    append "http://" (append host (append dotted (append ":" (append (decimal port) "/sensor"))))

-- What `run_model` has done: its reply, and the sensors that it has stored and started with.
pub record Run : Type 0 where
  pub reply : Reply
  pub started : Option (List String)

-- `run_model` of the measuring federate, by what the feeder's server answers. The 404 for an empty
-- list is raised in the `try` block whose handler makes it a 500.
unfoldable pub run_model : (String → Result (List String)) → String → Run
run_model get url = elim (get url) as (λ _. Run) [
  | raise e ↦ record { reply = failed 500 ""; started = none }
  | ok [] ↦ record { reply = failed 500 ""; started = none }
  | ok (sensor ∷ sensors) ↦ record {
    reply = record { status_code = 200; detail = "Task sucessfully added." };
    started = some (sensor ∷ sensors);
  }
]

-- `download_results` of the recorder: the first file, by name, or a 404.
unfoldable pub download_results : List String → Result String
download_results [] = raise http_error
download_results (file ∷ files) = ok file
