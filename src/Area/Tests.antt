-- ===== src/Area/Tests.antt =====
-- The area's theorems at a small network.
use sgidal_example.Prelude.{
  All, Dict, keys, type_error, ok, raise, ℕ, String, ◌≡◌, refl, none, List, [], ◌∷◌,
}
use sgidal_example.Floats.{Floats}
use sgidal_example.Samples.{whole}
use sgidal_example.Adapter.Info.{Bus, Branch}
use sgidal_example.Area.{AreaBus, AreaBranch, pick_area, graph_process, area_info}
use sgidal_example.Area.Numbered.{AreCounted}
use sgidal_example.Area.Branches.{IsPlaced, area_info-IsPlaced}
use sgidal_example.Area.Secondary.{area_info_secondary_error}

-- Tenths of volts in place of kilovolts: the level is 0, and every bus stands above it.
abbrev bus_at : ℕ → Bus whole
bus_at kv = record {
  phases = "1" ∷ [];
  kv = kv;
  pq = (1, 2) ∷ (3, 4) ∷ (5, 6) ∷ [];
  pv = (7, 8) ∷ (9, 10) ∷ (11, 12) ∷ [];
  eqid = none;
  idx = none;
}

abbrev bus_info : Dict (Bus whole)
bus_info = ("s", bus_at 4) ∷ ("a", bus_at 4) ∷ ("far", bus_at 4) ∷ []

abbrev line : Branch whole
line = record {
  fr_bus = "s";
  to_bus = "a";
  phases = "1" ∷ [];
  zprim = [];
  y = none;
  kind = "LINE";
  idx = none;
  from_idx = none;
  to_idx = none;
}

abbrev switch : Branch whole
switch = record line { kind = "SWITCH"; to_bus = "far" }

abbrev branch_info : Dict (Branch whole)
branch_info = ("s_a", line) ∷ ("s_far", switch) ∷ []

abbrev components : List (String × String) → List (List String)
components edges = ("far" ∷ []) ∷ ("s" ∷ "a" ∷ []) ∷ []

area_info-IsPlaced_example :
    (branches : Dict (AreaBranch whole)) × (buses : Dict (AreaBus whole)) × (area_info components
        branch_info bus_info "s"
      ≡ ok (branches, buses))
    × (keys buses ≡ "s" ∷ "a" ∷ [])
    × AreCounted 0 buses
    × All (IsPlaced (keys buses)) branches
unfolding pick_area graph_process
area_info-IsPlaced_example =
    area_info-IsPlaced components branch_info bus_info "s" ("s" ∷ "a" ∷ []) refl
      (refl, (refl, (refl, tt))) ((refl, refl), ((refl, refl), ((refl, refl), tt)))
      (refl, (refl, (refl, tt))) (refl, (refl, tt))

-- The same with a level of one.
abbrev coarse : Floats
coarse = record whole { literal = λ n d. 1 }

abbrev low_bus : Bus coarse
low_bus = record {
  phases = "1" ∷ [];
  kv = 0;
  pq = (1, 2) ∷ (3, 4) ∷ (5, 6) ∷ [];
  pv = (7, 8) ∷ (9, 10) ∷ (11, 12) ∷ [];
  eqid = none;
  idx = none;
}

area_info_secondary_error_example :
    area_info {F = coarse} components []
      (("s", record low_bus { kv = 5 }) ∷ ("a", low_bus) ∷ [])
      "s"
    ≡ raise type_error
unfolding pick_area graph_process
area_info_secondary_error_example =
    area_info_secondary_error components [] (("s", record low_bus { kv = 5 }) ∷ ("a", low_bus) ∷ [])
      "s" ("s" ∷ "a" ∷ []) "a" low_bus refl (refl, (refl, tt)) ((refl, refl), ((refl, refl), tt))
      refl refl
