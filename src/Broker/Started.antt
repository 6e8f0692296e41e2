-- ===== src/Broker/Started.antt =====
-- How many federates the broker of HELICS is told to wait for, and how many are started.
use sgidal_example.Prelude.{
  Bool-cases, length, Dict, insert, keys, mem, IsUnique, mem-keys-insert, insert-IsUnique, ok, ℕ,
  suc, ◌-◌, String, ◌≡◌, refl, ap, subst, inl, inr, true, false, Option, none, some, List, [], ◌∷◌,
  arith, str_eq, eq_iff,
}
use sgidal_example.Broker.{
  Component, WiringDiagram, RunRequest, add_hosts, api_port, read_settings, get_feeder_info,
  run_requests, run_simulation,
}

module _ {V : Type 0} where
  -- The hosts of the map are distinct, and the broker's is among them.
  add_hosts-IsUnique :
      (host : String) (cs : List (Component V)) (d : Dict ℕ)
      → IsUnique (keys d)
      → mem host (keys d) ≡ true
      → IsUnique (keys (add_hosts cs d)) × (mem host (keys (add_hosts cs d)) ≡ true)
  unfolding add_hosts
  add_hosts-IsUnique host [] d u m = (u, m)
  add_hosts-IsUnique host (c ∷ cs) d u m =
      add_hosts-IsUnique host cs (insert c.host c.container_port d)
        (insert-IsUnique c.host c.container_port d u)
        (ground (arith, mem-keys-insert host c.host c.container_port d))

  read_settings-IsUnique :
      (host : String) (diagram : Option (WiringDiagram V))
      → IsUnique (keys (read_settings host diagram))
        × (mem host (keys (read_settings host diagram)) ≡ true)
  unfolding read_settings
  read_settings-IsUnique host none = ((refl, tt), ground (arith, eq_iff host host))
  read_settings-IsUnique host (some w) =
      add_hosts-IsUnique host w.components ((host, api_port) ∷ []) (refl, tt)
        (ground (arith, eq_iff host host))

module _ (service : Option String) (host : String) (body : RunRequest) where
  -- No host of the map is the broker's: each gets a request.
  run_requests_others :
      (d : Dict ℕ)
      → mem host (keys d) ≡ false
      → length (run_requests service host body d) ≡ length d
  unfolding run_requests
  run_requests_others [] h = refl
  run_requests_others ((j, port) ∷ d) h =
      let here : str_eq j host ≡ false = ground (arith, h) in
      let there : mem host (keys d) ≡ false = ground (arith, h) in
      rw here (ap suc (run_requests_others d there))

  run_requests_count :
      (d : Dict ℕ)
      → IsUnique (keys d)
      → mem host (keys d) ≡ true
      → suc (length (run_requests service host body d)) ≡ length d
  unfolding run_requests
  run_requests_count [] u m = absurd (cc)
  run_requests_count ((j, port) ∷ d) u m = elim (Bool-cases (str_eq j host)) [
    | inl same ↦
        let own : j ≡ host = (eq_iff j host).0 same in
        rw same (ap suc (run_requests_others d (subst (λ n. mem n (keys d) ≡ false) own u.0)))
    | inr other ↦
        let there : mem host (keys d) ≡ true = ground (arith, m, other) in
        rw other (ap suc (run_requests_count d u.1 there))
  ]

get_feeder_info_total :
    (d : Dict ℕ) → mem "feeder" (keys d) ≡ true → (f : String × ℕ) × (get_feeder_info d ≡ some f)
unfolding get_feeder_info
get_feeder_info_total [] h = absurd (cc)
get_feeder_info_total ((j, port) ∷ d) h = elim (Bool-cases (str_eq j "feeder")) [
  | inl same ↦ ((j, port), rw same refl)
  | inr other ↦
      let there : mem "feeder" (keys d) ≡ true = ground (arith, h, other) in
      let (f, e) = get_feeder_info_total d there in (f, rw (other, e) refl)
]

-- Where "feeder" is a host of the settings, `run_simulation` returns, and the number of federates in
-- the options of the broker of HELICS is the number of components that are asked to run.
pub run_simulation-length :
    {V : Type 0} (service : Option String) (host ip : String) (diagram : Option (WiringDiagram V))
    → mem "feeder" (keys (read_settings host diagram)) ≡ true
    → (n : ℕ) × (requests : List (String × RunRequest)) × (run_simulation service host ip diagram
        ≡ ok (n, requests))
      × (n ≡ length requests)
unfolding run_simulation
run_simulation-length service host ip diagram h =
    let component_map = read_settings host diagram in
    let (feeder, e) = get_feeder_info_total component_map h in
    let (u, m) = read_settings-IsUnique host diagram in
    let body : RunRequest = record {
      broker_port = 23404;
      broker_ip = ip;
      api_port = api_port;
      feeder_host = feeder.0;
      feeder_port = feeder.1;
    } in
    let count = run_requests_count service host body component_map u m in
    (
      length component_map - 1,
      run_requests service host body component_map,
      rw e refl,
      omega (arith, count),
    )
