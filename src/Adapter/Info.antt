-- ===== src/Adapter/Info.antt =====
-- What the adapter knows of a bus and of a branch, and how it reads names.
use sgidal_example.Prelude.{
  ℕ, zero, suc, ◌-◌, String, Bool, true, false, Option, none, some, List, [], ◌∷◌, Result, ok,
  raise, or_raise, value_error, index_error, replicate, split_dot, split_underscore, contains,
  parse_int, leb, if◌then◌else◌, ◌>>=◌,
}
use sgidal_example.Floats.{Floats, Complex}

-- A bus: three pairs of real and reactive power for the loads and for the generators. `eqid` and `idx`
-- are set later.
pub record Bus (F : Floats) : Type 0 where
  pub phases : List String
  pub kv : F.Float
  pub pq : List (F.Float × F.Float)
  pub pv : List (F.Float × F.Float)
  pub eqid : Option String
  pub idx : Option ℕ

-- A branch: three by three matrices. `y` is deleted, and the positions are set, by `index_info`.
pub record Branch (F : Floats) : Type 0 where
  pub fr_bus : String
  pub to_bus : String
  pub phases : List String
  pub zprim : List (List (F.Float × F.Float))
  pub y : Option (List (List (Complex F)))
  pub kind : String
  pub idx : Option ℕ
  pub from_idx : Option ℕ
  pub to_idx : Option ℕ

abbrev pub zero_pair : (F : Floats) → F.Float × F.Float
zero_pair F = (F.from_ℕ 0, F.from_ℕ 0)

unfoldable pub init_branch : (F : Floats) → Branch F
init_branch F = record {
  fr_bus = "";
  to_bus = "";
  phases = [];
  zprim = replicate 3 (replicate 3 (zero_pair F));
  y = some (replicate 3 (replicate 3 (zero_pair F)));
  kind = "";
  idx = none;
  from_idx = none;
  to_idx = none;
}

unfoldable pub init_bus : (F : Floats) → Bus F
init_bus F = record {
  phases = [];
  kv = F.from_ℕ 0;
  pq = replicate 3 (zero_pair F);
  pv = replicate 3 (zero_pair F);
  eqid = none;
  idx = none;
}

-- `[a, b] = s.split(…)`: `ValueError` unless there are two parts.
abbrev pub pair_of : List String → Result (String × String)
pair_of (a ∷ b ∷ []) = ok (a, b)
pair_of _ = raise value_error

unfoldable pub split_pair : String → Result (String × String)
split_pair s = pair_of (split_dot s)

-- `int(phase) - 1` as an index into a list of `n`: phase 0 gives -1, the last place.
unfoldable pub phase_index : ℕ → String → Result ℕ
phase_index n phase = or_raise (parse_int phase) value_error >>= λ p. elim p [
  | zero ↦ if leb 1 n then ok (n - 1) else raise index_error
  | suc i ↦ if leb (suc i) n then ok i else raise index_error
]

-- The name of a bus, and whether it stood for an open switch.
unfoldable pub closed_name : String → Result (String × Bool)
closed_name name =
    if contains name "OPEN"
    then pair_of (split_underscore name) >>= (λ parts. ok (parts.0, true))
    else ok (name, false)
