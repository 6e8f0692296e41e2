-- ===== src/Area/Secondary.antt =====
-- Buses below the primary level.
use sgidal_example.Prelude.{
  Bool-cases, length, All, Dict, lookup, keys, mem, IsUnique, type_error, raise, String, ◌≡◌, refl,
  sym, ap, subst, inl, inr, true, ◌&&◌, some, List, [], ◌∷◌, arith, str_eq, eq_iff,
}
use sgidal_example.Floats.{Floats}
use sgidal_example.Adapter.Info.{Bus, Branch}
use sgidal_example.Area.{
  pick_area, primary_kv_level, graph_process, secondary_bus, secondary_buses, area_info,
}
use sgidal_example.Area.Numbered.{IsThreePhase, primary_buses_total}

module _ {F : Floats} where
  -- The bus is one that the second loop takes.
  abbrev pub IsSecondary : List String → String → Bus F → Type 0
  IsSecondary area name b = (mem name area && F.lt b.kv (primary_kv_level F)) ≡ true

  secondary_bus_error : (b : Bus F) → length b.pv ≡ 3 → secondary_bus b ≡ raise type_error
  unfolding secondary_bus
  secondary_bus_error b h = go b.pv refl
    where
      go : (l : List (F.Float × F.Float)) → b.pv ≡ l → secondary_bus b ≡ raise type_error
      go [] e = let none_left : length b.pv ≡ 0 = ap length e in absurd (omega arith)
      go (p ∷ ps) e = rw (secondary_bus, e) refl

  secondary_buses_error :
      (area : List String) (d : Dict (Bus F)) (name : String) (b : Bus F)
      → All IsThreePhase d
      → lookup name d ≡ some b
      → IsSecondary area name b
      → secondary_buses (some area) d ≡ raise type_error
  unfolding secondary_buses
  secondary_buses_error area [] name b three found low = absurd (cc)
  secondary_buses_error area ((j, c) ∷ d) name b three found low =
      elim (Bool-cases (mem j area && F.lt c.kv (primary_kv_level F))) [
        | inl taken ↦ let first = secondary_bus_error c three.0.0 in ground arith
        | inr left ↦ elim (Bool-cases (str_eq j name)) [
          | inl same ↦
              let e : c ≡ b = ground arith in
              let low_first : IsSecondary area j c =
                subst (IsSecondary area j) (sym e)
                  (subst (λ n. IsSecondary area n b) (sym ((eq_iff j name).0 same)) low) in
              absurd (cc (left, low_first))
          | inr other ↦
              let rest = secondary_buses_error area d name b three.1 (ground arith) low in
              ground arith
        ]
      ]

  module _ (connected_components : List (String × String) → List (List String)) where
    -- Where some bus of the source's component lies below the primary level, `area_info` raises
    -- `TypeError`, whatever the branches are: the loop over the secondary buses multiplies the pairs
    -- of the bus, which are lists, by a float.
    pub area_info_secondary_error :
        (branch_info : Dict (Branch F)) (bus_info : Dict (Bus F)) (source : String)
        (area : List String) (name : String) (b : Bus F)
        → pick_area source source (connected_components (graph_process branch_info).0) ≡ some area
        → IsUnique (keys bus_info)
        → All IsThreePhase bus_info
        → lookup name bus_info ≡ some b
        → IsSecondary area name b
        → area_info connected_components branch_info bus_info source ≡ raise type_error
    unfolding area_info
    area_info_secondary_error branch_info bus_info source area name b picked unique three found
          low =
        let (buses, run_buses, _, _) =
          primary_buses_total area bus_info [] three unique (λ x m. refl) tt in
        let failed = secondary_buses_error area bus_info name b three found low in
        rw (picked, run_buses, failed) refl
