-- ===== src/Area.antt =====
-- lindistflow_federate/area.py: the part of the network that hangs on the source bus.
pub mod Numbered
pub mod Branches
pub mod Secondary
pub mod Tests
use sgidal_example.Prelude.{
  ◌==◌, if◌then◌else◌, length, get_elem?, or_raise, Result, Dict, lookup, has_key, insert, mem,
  key_error, index_error, type_error, unbound_local_error, ok, raise, ℕ, suc, String, Bool, true,
  false, not, ◌&&◌, Option, none, some, List, [], ◌∷◌, map, str_eq, ◌>>=◌,
}
use sgidal_example.Floats.{Floats}
use sgidal_example.Adapter.Info.{Bus, Branch}

-- A row of `bus_info_area_i`, made by the first of the two loops over the buses.
pub record AreaBus (F : Floats) : Type 0 where
  pub idx : ℕ
  pub phases : List String
  pub kv : F.Float
  pub s_rated : F.Float
  pub pv : List (F.Float × F.Float)
  pub pq : List (F.Float × F.Float)

-- A row of `branch_sw_data_area_i`: the matrix is `zprim` or `impedance`.
pub record AreaBranch (F : Floats) : Type 0 where
  pub idx : ℕ
  pub kind : String
  pub from : ℕ
  pub to : ℕ
  pub fr_bus : String
  pub to_bus : String
  pub phases : List String
  pub zprim : Option (List (List (F.Float × F.Float)))
  pub impedance : Option (List (List (F.Float × F.Float)))

-- `xs[0]`, `xs[1]` and `xs[2]`
unfoldable pub triple {ℓ} : {A : Type ℓ} → List A → Result (A × A × A)
triple xs = or_raise (get_elem? xs 0) index_error >>= λ a.
    or_raise (get_elem? xs 1) index_error >>= λ b.
    or_raise (get_elem? xs 2) index_error >>= λ c. ok (a, b, c)

-- The first component that holds the source. The other branch is for another source bus than the area's.
unfoldable pub pick_area : String → String → List (List String) → Option (List String)
pick_area source area_source [] = none
pick_area source area_source (k ∷ rest) =
    if (if str_eq source area_source then mem source k else not (mem source k))
    then some k
    else pick_area source area_source rest

abbrev pub secondary_model : List String
secondary_model = "SPLIT_PHASE" ∷ "TPX_LINE" ∷ []

abbrev pub nor_open : List String
nor_open = "sw7" ∷ "sw8" ∷ []

abbrev pub primary_kv_level : (F : Floats) → F.Float
primary_kv_level F = F.literal 12 100

-- `[[p[0] * m, p[1] * m] for p in pairs]`
abbrev pub scale : (F : Floats) → F.Float → List (F.Float × F.Float) → List (F.Float × F.Float)
scale F m = map (λ p. (F.times p.0 m, F.times p.1 m))

-- `[i * 1.0 for i in pairs]` for pairs that are lists: a list times a float is a `TypeError`.
abbrev pub scale_lists : {A : Type 0} → List A → Result (Unit {0})
scale_lists [] = ok tt
scale_lists (i ∷ rest) = raise type_error

module _ {F : Floats} where
  -- The edges of the graph, and those of the open switches.
  unfoldable pub graph_process : Dict (Branch F) → List (String × String) × List (String × String)
  graph_process [] = ([], [])
  graph_process ((b, branch) ∷ rest) =
      let found = graph_process rest in
      if str_eq branch.kind "SWITCH"
      then (found.0, (branch.fr_bus, branch.to_bus) ∷ found.1)
      else ((branch.fr_bus, branch.to_bus) ∷ found.0, found.1)

  -- The body of the loop over the primary buses. Its sums of powers are not used, but they index `pq`.
  unfoldable pub primary_bus : ℕ → Bus F → Result (AreaBus F)
  primary_bus idx b = triple b.pv >>= λ pv. triple (scale F (F.from_ℕ 1) b.pq) >>= λ _. ok (record {
    idx = idx;
    phases = b.phases;
    kv = b.kv;
    s_rated = F.plus (F.plus pv.0.0 pv.1.0) pv.2.0;
    pv = scale F (F.from_ℕ 1) b.pv;
    pq = scale F (F.from_ℕ 1) b.pq;
  })

  unfoldable pub primary_buses :
      Option (List String) → ℕ → Dict (Bus F) → Dict (AreaBus F) → Result (Dict (AreaBus F))
  primary_buses area idx [] acc = ok acc
  primary_buses area idx ((key, b) ∷ rest) acc = or_raise area unbound_local_error >>= λ k.
      elim (mem key k && F.lt (primary_kv_level F) b.kv) [
        | true ↦ primary_bus idx b >>= λ row. primary_buses area (suc idx) rest (insert key row acc)
        | false ↦ primary_buses area idx rest acc
      ]

  -- The body of the loop over the secondary buses: `pv`, `pq`, then `bus["pv"][0]`.
  unfoldable pub secondary_bus : Bus F → Result (Unit {0})
  secondary_bus b = scale_lists b.pv >>= λ _.
      scale_lists b.pq >>= λ _. or_raise (get_elem? b.pv 0) index_error >>= λ _. ok tt

  -- The loop over the secondary buses. The row is left out: `scale_lists` or the index ends its body.
  unfoldable pub secondary_buses : Option (List String) → Dict (Bus F) → Result (Unit {0})
  secondary_buses area [] = ok tt
  secondary_buses area ((key, b) ∷ rest) = or_raise area unbound_local_error >>= λ k.
      elim (mem key k && F.lt b.kv (primary_kv_level F)) [
        | true ↦ secondary_bus b >>= λ _. secondary_buses area rest
        | false ↦ secondary_buses area rest
      ]

  -- The two loops over the branches: `second` tells them apart. A branch of `extract_info` has no
  -- `impedance`.
  unfoldable pub area_branch : Bool → ℕ → Branch F → Dict (AreaBus F) → Result (AreaBranch F)
  area_branch second idx b buses = or_raise (lookup b.fr_bus buses) key_error >>= λ from.
      or_raise (lookup b.to_bus buses) key_error >>= λ to.
      if str_eq b.kind "SPLIT_PHASE"
      then raise key_error
      else ok (record {
        idx = idx;
        kind = b.kind;
        from = from.idx;
        to = to.idx;
        fr_bus = b.fr_bus;
        to_bus = b.to_bus;
        phases = b.phases;
        zprim = if second then none else some b.zprim;
        impedance = if second then some b.zprim else none;
      })

  -- The guards of a loop's body.
  unfoldable pub takes_branch : Bool → String → Branch F → Dict (AreaBus F) → Bool
  takes_branch second key b buses =
      has_key b.fr_bus buses
      && has_key b.to_bus buses
      && (if second
          then mem b.kind secondary_model
          else not (mem b.kind secondary_model) && not (mem key nor_open))

  unfoldable pub area_branches :
      Bool
      → ℕ
      → Dict (Branch F)
      → Dict (AreaBus F)
      → Dict (AreaBranch F)
      → Result (Dict (AreaBranch F))
  area_branches second idx [] buses acc = ok acc
  area_branches second idx ((key, b) ∷ rest) buses acc = elim (takes_branch second key b buses) [
    | true ↦ area_branch second idx b buses >>= λ row.
        area_branches second (suc idx) rest buses (insert key row acc)
    | false ↦ area_branches second idx rest buses acc
  ]

  -- `not len(bus_info_cen) - len(branch_info_cen) == 1` is what is logged.
  unfoldable pub check_network_radiality : Dict (AreaBranch F) → Dict (AreaBus F) → Bool
  check_network_radiality branch_info_cen bus_info_cen =
      length bus_info_cen == suc (length branch_info_cen)

-- `nx.connected_components` is networkx's: a parameter.
module _ {F : Floats} (connected_components : List (String × String) → List (List String)) where
  unfoldable pub area_info :
      Dict (Branch F) → Dict (Bus F) → String → Result (Dict (AreaBranch F) × Dict (AreaBus F))
  area_info branch_info bus_info source_bus =
      let graph = graph_process branch_info in
      let area = pick_area source_bus source_bus (connected_components graph.0) in
      primary_buses area 0 bus_info [] >>= λ buses. secondary_buses area bus_info >>= λ _.
      area_branches false 0 branch_info buses [] >>= λ primary.
      area_branches true 0 branch_info buses primary >>= λ branches. ok (branches, buses)
