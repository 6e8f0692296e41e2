-- ===== src/Adapter/Tests.antt =====
-- The adapter's theorems at a small network.
use sgidal_example.Prelude.{
  split_dot, split_underscore, parse_int, Dict, keys, ok, ℕ, String, ◌≡◌, refl, List, [], ◌∷◌,
}
use sgidal_example.Samples.{whole}
use sgidal_example.Adapter.Info.{Bus, split_pair, phase_index, closed_name, init_bus, init_branch}
use sgidal_example.Adapter.Extract.{
  Admittance, Network, read_edge, branch_key, insert_new, append_new, set_cell, fill_branch,
  add_phase, fill_edge, add_edge, add_edges,
}
use sgidal_example.Adapter.Measurements.{
  extract_voltages, extract_info, extract_injection, extract_powers, pack_voltages, pack_buses,
  pack_phases,
}
use sgidal_example.Adapter.Injection.{extract_injection-extract_powers}
use sgidal_example.Adapter.Numbered.{AreNumbered, extract_info-AreNumbered}

-- A line from `s` to `a`, seen from both of its ends, and an open switch from `a` to `b`.
abbrev rows : List (Admittance whole)
rows =
    record { from_equipment = "s.1"; to_equipment = "a.1"; y = (3, 4) }
    ∷ record { from_equipment = "a.1"; to_equipment = "s.1"; y = (3, 4) }
    ∷ record { from_equipment = "a.2"; to_equipment = "b_OPEN.2"; y = (5, 6) }
    ∷ record { from_equipment = "b.2"; to_equipment = "b.2"; y = (1, 1) }
    ∷ []

abbrev base : List (String × ℕ)
base = ("s.1", 2000) ∷ ("a.1", 3000) ∷ ("other.1", 7) ∷ []

read : (n : Network whole) × (add_edges rows (record { branch_info = []; bus_info = [] }) ≡ ok n)
unfolding add_edges read_edge split_pair split_dot split_underscore closed_name add_edge fill_edge
    branch_key insert_new append_new set_cell fill_branch add_phase phase_index parse_int init_bus
    init_branch
read = (_, refl)

voltages : (buses : Dict (Bus whole)) × (extract_voltages base read.0.bus_info ≡ ok buses)
unfolding extract_voltages split_pair split_dot read
voltages = (_, refl)

abbrev same_matrix : List (List (ℕ × ℕ)) → List (List (ℕ × ℕ))
same_matrix m = m

extract_info-AreNumbered_example :
    (n : Network whole) × (extract_info same_matrix rows base ≡ ok n)
    × (keys n.bus_info ≡ keys read.0.bus_info)
    × AreNumbered (keys n.bus_info) 0 n.branch_info
extract_info-AreNumbered_example =
    extract_info-AreNumbered same_matrix rows base read.0 voltages.0 read.1 voltages.1

pack_voltages_unknown_phase :
    pack_voltages {A = ℕ} (("a", ("A", 5) ∷ ("s1", 6) ∷ []) ∷ ("b", ("B", 7) ∷ []) ∷ [])
    ≡ ok (("a.1", 5) ∷ ("a.1", 6) ∷ ("b.2", 7) ∷ [])
unfolding pack_voltages pack_buses pack_phases
pack_voltages_unknown_phase = refl

extract_injection-extract_powers_example :
    extract_injection (("a.1", "PVSystem.p", 2) ∷ []) (("a.2", "Load.l", 3) ∷ []) voltages.0
    ≡ extract_powers (("a.1", "PVSystem.p", 2) ∷ []) (("a.2", "Load.l", 3) ∷ []) voltages.0
unfolding voltages read
extract_injection-extract_powers_example =
    extract_injection-extract_powers (("a.1", "PVSystem.p", 2) ∷ []) (("a.2", "Load.l", 3) ∷ [])
      voltages.0 (refl, (refl, (refl, tt)))
