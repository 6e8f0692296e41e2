-- ===== src/Feeder/Power/Tests.antt =====
-- The power getters at a small feeder.
use sgidal_example.Prelude.{split_dot, upper, ok, ◌≡◌, refl, true, List, [], ◌∷◌, map, arith}
use sgidal_example.Samples.{whole, engine, feeder}
use sgidal_example.Feeder.Engine.{Engine, Element}
use sgidal_example.Feeder.Power.{Pq, get_pqs_pv}
use sgidal_example.Feeder.Power.Elements.{
  Datum, get_pvsystems, source_datum, get_all_nodes, bus_nodes, first_bus_parts,
}
use sgidal_example.Feeder.Power.Known.{terminal, get_pqs_pv_static}

abbrev solar : Element whole
solar = record {
  name = "pv1";
  full_name = "PVSystem.pv1";
  kw = 6;
  kvar = 4;
  pf = 1;
  num_phases = 2;
  bus_names = "a.1" ∷ "b.0.1" ∷ [];
  powers = 1 ∷ 2 ∷ 3 ∷ 4 ∷ [];
}

abbrev solar_engine : Engine whole
solar_engine = record engine { pv_elements = λ h. solar ∷ [] }

all_nodes : get_all_nodes ("a" ∷ "b.1.0.3" ∷ []) ≡ "A.1" ∷ "A.2" ∷ "A.3" ∷ "B.1" ∷ "B.3" ∷ []
unfolding get_all_nodes bus_nodes split_dot upper
all_nodes = refl

read_solar : (pvs : List (Datum whole)) × (get_pvsystems solar_engine feeder.history ≡ ok pvs)
unfolding get_pvsystems source_datum first_bus_parts
read_solar = (_, refl)

abbrev same_order : List (Pq whole) → List (Pq whole)
same_order zs = zs

get_pqs_pv_static_example :
    (zs : List (Pq whole)) × ((get_pqs_pv solar_engine same_order true feeder).0 ≡ ok zs)
    × (map terminal zs ≡ ("PVSystem.pv1", "A.1") ∷ ("PVSystem.pv1", "B.1") ∷ [])
unfolding read_solar get_all_nodes bus_nodes split_dot upper
get_pqs_pv_static_example =
    get_pqs_pv_static solar_engine same_order feeder read_solar.0 refl read_solar.1
      ((λ e. absurd (omega arith), (refl, (refl, tt))), tt)
