-- ===== src/Adapter/Extract.antt =====
-- `extract_info`: the loop over the admittances, and the numbering of buses and branches.
use sgidal_example.Prelude.{
  ℕ, suc, String, append, str_eq, not, ◌&&◌, ◌||◌, none, some, List, [], ◌∷◌, ◌++◌, Result, ok,
  or_raise, key_error, Dict, insert, lookup, has_key, update, mem, get_elem?, set, if◌then◌else◌,
  ◌>>=◌,
}
use sgidal_example.Floats.{Floats, Complex}
use sgidal_example.Adapter.Info.{
  Bus, Branch, init_bus, init_branch, split_pair, phase_index, closed_name,
}

-- One row of `zip(from_equipment, to_equipment, admittance_list)`.
pub record Admittance (F : Floats) : Type 0 where
  pub from_equipment : String
  pub to_equipment : String
  pub y : Complex F

-- A row after its names have been read.
pub record Edge (F : Floats) : Type 0 where
  pub from_name : String
  pub from_phase : String
  pub to_name : String
  pub to_phase : String
  pub kind : String
  pub y : Complex F

pub record Network (F : Floats) : Type 0 where
  pub branch_info : Dict (Branch F)
  pub bus_info : Dict (Bus F)

unfoldable pub read_edge : {F : Floats} → Admittance F → Result (Edge F)
read_edge a = split_pair a.from_equipment >>= λ from. closed_name from.0 >>= λ from_name.
    split_pair a.to_equipment >>= λ to. closed_name to.0 >>= λ to_name. ok (record {
      from_name = from_name.0;
      from_phase = from.1;
      to_name = to_name.0;
      to_phase = to.1;
      kind = if from_name.1 || to_name.1 then "SWITCH" else "LINE";
      y = a.y;
    })

unfoldable pub branch_key : String → String → String
branch_key a b = append a (append "_" b)

-- `if name not in d: d[name] = v`
unfoldable pub insert_new : {V : Type 0} → String → V → Dict V → Dict V
insert_new name v d = if has_key name d then d else insert name v d

-- `if x not in xs: xs.append(x)`
unfoldable pub append_new : String → List String → List String
append_new x xs = if mem x xs then xs else xs ++ x ∷ []

-- `y[row][col] = v`
unfoldable pub set_cell : {A : Type 0} → ℕ → ℕ → A → List (List A) → List (List A)
set_cell row col v m = elim (get_elem? m row) [ none ↦ m | some r ↦ set m row (set r col v) ]

module _ {F : Floats} where
  -- The updates of the branch.
  unfoldable pub fill_branch : Edge F → ℕ → ℕ → Branch F → Branch F
  fill_branch e row col b = record b {
    y = elim b.y [ none ↦ none | some m ↦ some (set_cell row col e.y m) ];
    phases = append_new e.from_phase b.phases;
    kind = e.kind;
    fr_bus = e.from_name;
    to_bus = e.to_name;
  }

  unfoldable pub add_phase : String → Bus F → Bus F
  add_phase phase b = record b { phases = append_new phase b.phases }

  -- The part of the loop's body below `elif key_back in branch_info: continue`.
  unfoldable pub fill_edge : Edge F → Dict (Branch F) → Dict (Bus F) → Result (Network F)
  fill_edge e branches buses =
      let key = branch_key e.from_name e.to_name in
      let with_from = insert_new e.from_name (init_bus F) buses in
      let with_to = insert_new e.to_name (init_bus F) with_from in
      phase_index 3 e.from_phase >>= λ row. phase_index 3 e.to_phase >>= λ col. ok (record {
        branch_info = update key (fill_branch e row col) branches;
        bus_info =
            update e.to_name (add_phase e.to_phase)
              (update e.from_name (add_phase e.from_phase) with_to);
      })

  -- The body of the loop, for a row that has been read.
  unfoldable pub add_edge : Edge F → Network F → Result (Network F)
  add_edge e n =
      let key = branch_key e.from_name e.to_name in
      let key_back = branch_key e.to_name e.from_name in
      if str_eq e.from_name e.to_name
      then ok n
      else if not (has_key key n.branch_info) && not (has_key key_back n.branch_info)
      then fill_edge e (insert key (init_branch F) n.branch_info) n.bus_info
      else if has_key key_back n.branch_info
      then ok n
      else fill_edge e n.branch_info n.bus_info

  unfoldable pub add_edges : List (Admittance F) → Network F → Result (Network F)
  add_edges [] n = ok n
  add_edges (a ∷ rest) n = read_edge a >>= λ e. add_edge e n >>= λ m. add_edges rest m

  -- `for i, name in enumerate(bus): bus[name]["idx"] = i`
  unfoldable pub index_buses : ℕ → Dict (Bus F) → Dict (Bus F)
  index_buses i [] = []
  index_buses i ((name, b) ∷ rest) = (name, record b { idx = some i }) ∷ index_buses (suc i) rest

  -- `bus[name]["idx"]`
  unfoldable pub bus_idx : String → Dict (Bus F) → Result ℕ
  bus_idx name buses = or_raise (lookup name buses) key_error >>= λ b. or_raise b.idx key_error

-- `-1 * np.linalg.pinv(y)` is numpy's: a parameter. Its nine values replace those of `zprim`.
module _ {F : Floats} (neg_pinv : List (List (Complex F)) → List (List (Complex F))) where
  unfoldable pub index_branches : ℕ → Dict (Branch F) → Dict (Bus F) → Result (Dict (Branch F))
  index_branches i [] buses = ok []
  index_branches i ((name, b) ∷ rest) buses = bus_idx b.fr_bus buses >>= λ from.
      bus_idx b.to_bus buses >>= λ to. or_raise b.y key_error >>= λ y.
      index_branches (suc i) rest buses >>= λ others. ok (
        (
          name,
          record b {
            idx = some i;
            from_idx = some from;
            to_idx = some to;
            y = none;
            zprim = neg_pinv y;
          },
        )
        ∷ others)

  unfoldable pub index_info : Dict (Branch F) → Dict (Bus F) → Result (Network F)
  index_info branches buses =
      let numbered = index_buses 0 buses in
      index_branches 0 branches numbered >>= λ bs.
      ok (record { branch_info = bs; bus_info = numbered })
