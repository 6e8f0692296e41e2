-- ===== src/Broker.antt =====
-- broker/server.py and the servers of the components: the settings, the requests that start and
-- configure the components, and the uploads. A request is answered by HTTP, a parameter; what the
-- broker knows of a reply is its status and its text, or the exception that `requests` raises.
pub mod Started
pub mod Wired
mod Tests
use sgidal_example.Prelude.{
  ◌==◌, if◌then◌else◌, length, all, or_raise, Result, contains, join, decimal, Dict, lookup, insert,
  type_error, ok, raise, ℕ, ◌-◌, String, append, Bool, false, Option, none, some, List, [], ◌∷◌,
  str_eq,
}
use sgidal_example.Prelude
use sgidal_example.Prelude.Exec.{Exec, pure, lift, modify, ensure, ◌>>=◌, ◌>>◌}

-- What is read of `Component`, with its parameters as JSON.
pub record Component (V : Type 0) : Type 0 where
  pub name : String
  pub host : String
  pub container_port : ℕ
  pub parameters : Dict V

pub record Link : Type 0 where
  pub source : String
  pub source_port : String
  pub target : String
  pub target_port : String

pub record WiringDiagram (V : Type 0) : Type 0 where
  pub components : List (Component V)
  pub links : List Link

pub record ComponentStruct (V : Type 0) : Type 0 where
  pub component : Component V
  pub links : List Link

-- The two files that the configuration of a component writes.
pub record Files (V : Type 0) : Type 0 where
  pub input_mapping : Dict String
  pub static_inputs : Dict V

pub record Reply : Type 0 where
  pub status_code : ℕ
  pub detail : String

-- The text that is posted to start a component.
pub record RunRequest : Type 0 where
  pub broker_port : ℕ
  pub broker_ip : String
  pub api_port : ℕ
  pub feeder_host : String
  pub feeder_port : ℕ

-- `service` is the environment variable `KUBERNETES_SERVICE_NAME`, where it is set.
unfoldable pub build_url : Option String → String → ℕ → List String → String
build_url service host port endpoint =
    let dotted = elim service as (λ _. String) [
      | none ↦ ""
      | some name ↦ if str_eq name "" then "" else append "." name
    ] in
    append "http://" (
      append host (
        append dotted
          (append ":" (append (decimal port) (append "/" (append (join "/" endpoint) "/"))))))

-- The loop over the components of `read_settings`.
unfoldable pub add_hosts : {V : Type 0} → List (Component V) → Dict ℕ → Dict ℕ
add_hosts [] hosts = hosts
add_hosts (c ∷ cs) hosts = add_hosts cs (insert c.host c.container_port hosts)

abbrev pub api_port : ℕ
api_port = 8766

-- `component_map`, from the name of the broker's own host and the wiring diagram, where it is set.
unfoldable pub read_settings : {V : Type 0} → String → Option (WiringDiagram V) → Dict ℕ
read_settings broker_host none = (broker_host, api_port) ∷ []
read_settings broker_host (some w) = add_hosts w.components ((broker_host, api_port) ∷ [])

-- `None` where no host is the feeder's.
unfoldable pub get_feeder_info : Dict ℕ → Option (String × ℕ)
get_feeder_info [] = none
get_feeder_info ((host, port) ∷ rest) =
    if str_eq host "feeder" then some (host, port) else get_feeder_info rest

-- The requests of `run_simulation`, to every host but the broker's.
unfoldable pub run_requests :
    Option String → String → RunRequest → Dict ℕ → List (String × RunRequest)
run_requests service broker_host body [] = []
run_requests service broker_host body ((host, port) ∷ rest) =
    if str_eq host broker_host
    then run_requests service broker_host body rest
    else (build_url service host port ("run" ∷ []), body)
      ∷ run_requests service broker_host body rest

-- What `run_simulation` does before it waits: the number of federates in the broker's options, and
-- the requests. Unpacking `None` is a `TypeError`.
unfoldable pub run_simulation :
    {V : Type 0}
    → Option String
    → String
    → String
    → Option (WiringDiagram V)
    → Result (ℕ × List (String × RunRequest))
run_simulation service broker_host broker_ip diagram =
    let component_map = read_settings broker_host diagram in
    Prelude.◌>>=◌ (or_raise (get_feeder_info component_map) type_error) (λ feeder. ok (
      length component_map - 1,
      run_requests service broker_host
          (record {
            broker_port = 23404;
            broker_ip = broker_ip;
            api_port = api_port;
            feeder_host = feeder.0;
            feeder_port = feeder.1;
          })
          component_map,
    ))

-- The first host whose name holds "feeder".
unfoldable pub feeder_like : Dict ℕ → Option (String × ℕ)
feeder_like [] = none
feeder_like ((host, port) ∷ rest) =
    if contains host "feeder" then some (host, port) else feeder_like rest

-- `upload_profiles` and `upload_model`, by the endpoint: every exception, the 404 for a missing
-- feeder too, becomes a 500, whose text, the traceback, is left out. The test of the file's name
-- raises nothing.
unfoldable pub upload :
    {V W : Type 0}
    → (String → Exec W Reply)
    → Option String
    → String
    → Option (WiringDiagram V)
    → String
    → Exec W Reply
upload {V} {W} post_file service broker_host diagram endpoint s =
    elim (feeder_like (read_settings broker_host diagram)) as (λ _. Result Reply × W) [
      | none ↦ (ok (record { status_code = 500; detail = "" }), s)
      | some (host, port) ↦
          let (r, s') = post_file (build_url service host port (endpoint ∷ [])) s in
          elim r as (λ _. Result Reply × W) [
            | raise e ↦ (ok (record { status_code = 500; detail = "" }), s')
            | ok reply ↦ (ok reply, s')
          ]
    ]

-- The links whose target is this component, in the order of the diagram.
unfoldable pub links_to : String → List Link → List Link
links_to name [] = []
links_to name (l ∷ ls) = if str_eq l.target name then l ∷ links_to name ls else links_to name ls

-- The loop over the links of a component's `configure`.
unfoldable pub add_links : List Link → Dict String → Dict String
add_links [] mapping = mapping
add_links (l ∷ ls) mapping =
    add_links ls (insert l.target_port (append l.source (append "/" l.source_port)) mapping)

module _ {V : Type 0} (text : String → V) where
  -- `configure` of LocalFeeder/server.py and of the other components' servers.
  unfoldable pub configure_component : ComponentStruct V → Files V
  configure_component c = record {
    input_mapping = add_links c.links [];
    static_inputs = insert "name" (text (c.component).name) (c.component).parameters;
  }

-- The diagram that the broker keeps, and what its requests have reached.
pub record Broker (V W : Type 0) : Type 0 where
  pub wiring_diagram : Option (WiringDiagram V)
  pub network : W

module _ {V W : Type 0} where
  abbrev pub on_network : {A : Type 0} → Exec W A → Exec (Broker V W) A
  on_network m s = let (r, w) = m s.network in (r, record s { network = w })

module _ {V W : Type 0} (post : String → ComponentStruct V → Exec W ℕ)
    (service : Option String) where
  -- The body of the loop of `configure`.
  unfoldable pub configure_one : List Link → Component V → Exec W (Unit {0})
  configure_one links c = do
    status ←
        post (build_url service c.host c.container_port ("configure" ∷ []))
          (record { component = c; links = links_to c.name links })
    ensure (λ _. status == 200)

  unfoldable pub configure_all : List Link → List (Component V) → Exec W (Unit {0})
  configure_all links [] = pure tt
  configure_all links (c ∷ cs) = let rest = configure_all links cs in configure_one links c >> rest

  unfoldable pub configure : WiringDiagram V → Exec (Broker V W) Reply
  configure diagram = do
    modify (λ s. record s { wiring_diagram = some diagram })
    on_network (configure_all diagram.links diagram.components)
    pure (record {
      status_code = 200;
      detail = "Sucessfully updated config files for all containers";
    })

-- `status`: the last data of each name, where there is a broker and it is connected.
unfoldable pub latest : {T : Type 0} → (T → T → Bool) → List (String × T) → Dict T → Dict T
latest same [] d = d
latest same ((name, t) ∷ rest) d =
    let old = elim (lookup name d) as (λ _. Bool) [ none ↦ false | some u ↦ same u t ] in
    latest same rest (if old then d else insert name t d)
