-- ===== src/Broker/Tests.antt =====
-- The broker at two components.
use sgidal_example.Prelude.{
  All, join, decimal, Dict, lookup, insert, lookup-insert, lookup-insert_self, IsUnique, ok, ℕ,
  String, ◌≡◌, refl, Option, none, some, [], ◌∷◌, arith, List, length,
}
use sgidal_example.Prelude.Exec.{Exec}
use sgidal_example.Broker.{
  Component, Link, WiringDiagram, ComponentStruct, Files, Reply, build_url, configure_component,
  Broker, configure, RunRequest, read_settings, add_hosts, run_simulation,
}
use sgidal_example.Broker.Started.{run_simulation-length}
use sgidal_example.Broker.Wired.{Delivers, IsConfigured, configure-IsConfigured}

abbrev feeder : Component String
feeder = record { name = "local_feeder"; host = "feeder"; container_port = 5678; parameters = [] }

abbrev recorder : Component String
recorder = record { name = "recorder_v"; host = "recorder"; container_port = 5679; parameters = [] }

abbrev link : Link
link = record {
  source = "local_feeder";
  source_port = "voltages_magnitude";
  target = "recorder_v";
  target_port = "subscription";
}

abbrev diagram : WiringDiagram String
diagram = record { components = feeder ∷ recorder ∷ []; links = link ∷ [] }

-- The files of each address.
abbrev Net : Type 0
Net = Dict (Files String)

abbrev own_name : String → String
own_name name = name

abbrev post : String → ComponentStruct String → Exec Net ℕ
post url c w = (ok 200, insert url (configure_component own_name c) w)

abbrev files : Net → String → Option (Files String)
files w url = lookup url w

delivers : Delivers own_name post files none
delivers = record {
  after = λ url c w. insert url (configure_component own_name c) w;
  replies = λ url c w. refl;
  reaches = λ url c w. lookup-insert_self url (configure_component own_name c) w;
  spares = λ url c w other h.
      ground (arith, h, lookup-insert url other (configure_component own_name c) w);
}

abbrev broker : Broker String Net
broker = record { wiring_diagram = none; network = [] }

distinct : IsUnique (
    build_url none "feeder" 5678 ("configure" ∷ [])
    ∷ build_url none "recorder" 5679 ("configure" ∷ [])
    ∷ [])
unfolding build_url join decimal
distinct = (refl, (refl, tt))

configure-IsConfigured_example :
    (reply : Reply) × (end : Broker String Net) × (configure post none diagram broker
      ≡ (ok reply, end))
    × (reply.status_code ≡ 200)
    × (end.wiring_diagram ≡ some diagram)
    × All (IsConfigured own_name post files none diagram.links end.network) diagram.components
configure-IsConfigured_example =
    configure-IsConfigured own_name post files none delivers diagram broker distinct

run_simulation-length_example :
    (n : ℕ) × (requests : List (String × RunRequest)) × (run_simulation none "broker" "10.0.0.1"
        (some diagram)
      ≡ ok (n, requests))
    × (n ≡ length requests)
unfolding read_settings add_hosts
run_simulation-length_example = run_simulation-length none "broker" "10.0.0.1" (some diagram) refl
