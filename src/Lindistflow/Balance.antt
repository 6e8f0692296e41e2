-- ===== src/Lindistflow/Balance.antt =====
-- Constraint 1 of `optimal_power_flow`: at each bus but the source, what flows in flows out.
use sgidal_example.Prelude.{
  ◌==◌, if◌then◌else◌, or_raise, Result, Dict, lookup, sub_ℕ, offset, ℤ, pos, key_error,
  index_error, ok, raise, ℕ, suc, ◌+◌, ◌*◌, String, Bool, Option, none, some, List, [], ◌∷◌, ◌++◌,
  str_eq,
}
use sgidal_example.Prelude
use Prim.Native.Char.{code}
use sgidal_example.Prelude.Exec.{Exec, pure, lift, for_each, ◌>>=◌, ◌>>◌}
use sgidal_example.Floats.{Floats}
use sgidal_example.Area.{AreaBus, AreaBranch}
use sgidal_example.Lindistflow.Build.{
  Sizes, Build, voltage_count, set_a, set_b, advance, one, minus_one,
}

-- `key[-1]`, as the code of a letter.
abbrev pub last_letter : String → Option ℕ
last_letter String.[] = none
last_letter (String.◌∷◌ c String.[]) = some (code c)
last_letter (String.◌∷◌ c s) = last_letter s

module _ {F : Floats} where
  -- One of the two loops of `power_balance`.
  unfoldable pub set_all : ℕ → F.Float → List ℤ → Exec (Build F) (Unit {0})
  set_all col v [] = pure tt
  set_all col v (k ∷ ks) = let rest = set_all col v ks in set_a (offset col k) v >> rest

  unfoldable pub power_balance : List ℤ → List ℤ → ℕ → ℕ → Exec (Build F) (Unit {0})
  power_balance k_frm k_to col val = do
    set_all col (minus_one F) k_frm
    set_all col (one F) k_to
    set_a (pos val) (minus_one F)
    set_b (F.from_ℕ 0)

-- The places of the branches that leave a bus and of those that enter it. Those to a bus of the
-- secondary are kept by their phase, for real and for reactive power.
pub record Lines : Type 0 where
  pub k_frm_3p : List ℤ
  pub k_to_3p : List ℤ
  pub k_frm_1p : List ℤ
  pub k_to_1p : List ℤ
  pub k_frm_1pa : List ℤ
  pub k_frm_1pb : List ℤ
  pub k_frm_1pc : List ℤ
  pub k_frm_1qa : List ℤ
  pub k_frm_1qb : List ℤ
  pub k_frm_1qc : List ℤ

abbrev pub no_lines : Lines
no_lines = record {
  k_frm_3p = [];
  k_to_3p = [];
  k_frm_1p = [];
  k_to_1p = [];
  k_frm_1pa = [];
  k_frm_1pb = [];
  k_frm_1pc = [];
  k_frm_1qa = [];
  k_frm_1qb = [];
  k_frm_1qc = [];
}

-- The three `if` statements on the last letter of a branch to the secondary.
unfoldable pub add_letter : Sizes → ℕ → Option ℕ → Lines → Result Lines
add_letter z ind none l = raise index_error
add_letter z ind (some c) l =
    if c == b'a'
    then ok (record l {
      k_frm_1pa = l.k_frm_1pa ++ sub_ℕ (z.nbranch_abc * 6 + ind) z.nbranch_abc ∷ [];
      k_frm_1qa =
          l.k_frm_1qa ++ offset z.nbranch_s1s2 (sub_ℕ (z.nbranch_abc * 3 + ind) z.nbranch_abc) ∷ [];
    })
    else if c == b'b'
    then ok (record l {
      k_frm_1pb = l.k_frm_1pb ++ sub_ℕ (z.nbranch_abc * 5 + ind) z.nbranch_abc ∷ [];
      k_frm_1qb =
          l.k_frm_1qb ++ offset z.nbranch_s1s2 (sub_ℕ (z.nbranch_abc * 2 + ind) z.nbranch_abc) ∷ [];
    })
    else if c == b'c'
    then ok (record l {
      k_frm_1pc = l.k_frm_1pc ++ sub_ℕ (z.nbranch_abc * 4 + ind) z.nbranch_abc ∷ [];
      k_frm_1qc =
          l.k_frm_1qc ++ offset z.nbranch_s1s2 (sub_ℕ (z.nbranch_abc * 1 + ind) z.nbranch_abc) ∷ [];
    })
    else ok l

module _ {F : Floats} where
  -- `bus_info[name]["kv"] > PRIMARY_V`
  unfoldable pub is_primary : String → Dict (AreaBus F) → Result Bool
  is_primary name bus_info =
      Prelude.◌>>=◌ (or_raise (lookup name bus_info) key_error)
        (λ b. ok (F.lt (F.literal 12 100) b.kv))

  -- The loop over the branches for a bus of the secondary.
  unfoldable pub secondary_lines : Sizes → ℕ → ℕ → Dict (AreaBranch F) → Lines → Lines
  secondary_lines z idx ind [] l = l
  secondary_lines z idx ind ((key, b) ∷ rest) l =
      let frm = if idx == b.from then l.k_frm_1p ++ sub_ℕ ind z.nbranch_abc ∷ [] else l.k_frm_1p in
      let to = if idx == b.to then l.k_to_1p ++ sub_ℕ ind z.nbranch_abc ∷ [] else l.k_to_1p in
      secondary_lines z idx (suc ind) rest (record l { k_frm_1p = frm; k_to_1p = to })

  -- The body of the loop over the branches for a bus of the primary: the line leaves the bus.
  unfoldable pub leaving_line :
      Sizes → Dict (AreaBus F) → ℕ → ℕ → String × AreaBranch F → Lines → Result Lines
  leaving_line z bus_info idx ind p l =
      if idx == p.1.from
      then (Prelude.◌>>=◌ (is_primary p.1.to_bus bus_info) (λ primary.
          if primary
          then ok (record l { k_frm_3p = l.k_frm_3p ++ pos ind ∷ [] })
          else add_letter z ind (last_letter p.0) l))
      else ok l

  -- The line enters the bus.
  unfoldable pub entering_line :
      Sizes → Dict (AreaBus F) → ℕ → ℕ → String × AreaBranch F → Lines → Result Lines
  entering_line z bus_info idx ind p l =
      if idx == p.1.to
      then (Prelude.◌>>=◌ (is_primary p.1.fr_bus bus_info) (λ primary.
          if primary
          then ok (record l { k_to_3p = l.k_to_3p ++ pos ind ∷ [] })
          else ok (record l { k_to_1p = l.k_to_1p ++ sub_ℕ ind z.nbranch_abc ∷ [] })))
      else ok l

  unfoldable pub primary_lines :
      Sizes → Dict (AreaBus F) → ℕ → ℕ → Dict (AreaBranch F) → Lines → Result Lines
  primary_lines z bus_info idx ind [] l = ok l
  primary_lines z bus_info idx ind (p ∷ rest) l =
      Prelude.◌>>=◌ (leaving_line z bus_info idx ind p l) (λ left.
        Prelude.◌>>=◌ (entering_line z bus_info idx ind p left)
          (λ entered. primary_lines z bus_info idx (suc ind) rest entered))

  -- One equation of a phase: `p` counts the phases, `first` the columns of its injections.
  abbrev pub phase_balance : Sizes → ℕ → ℕ → ℕ → ℕ → List ℤ → List ℤ → Exec (Build F) (Unit {0})
  phase_balance z idx loc first p k_frm k_to =
      power_balance k_frm k_to (loc + z.nbranch_abc * p)
        (idx + z.nbus_abc * 3 + z.nbus_s1s2 + z.nbus_abc * (first + p))
      >> advance

  unfoldable pub secondary_balance : Sizes → Dict (AreaBranch F) → ℕ → Exec (Build F) (Unit {0})
  secondary_balance z branch_info idx =
      let l = secondary_lines z idx 0 branch_info no_lines in
      let loc = voltage_count z + z.nbranch_abc * 6 in
      let val = idx + z.nbus_abc * 3 + z.nbus_s1s2 + z.nbus_abc * 5 in
      do
        power_balance l.k_frm_1p l.k_to_1p loc val
        advance
        power_balance l.k_frm_1p l.k_to_1p (loc + z.nbranch_s1s2) (val + z.nbus_s1s2)
        advance

  unfoldable pub primary_balance :
      Sizes → Dict (AreaBranch F) → Dict (AreaBus F) → ℕ → Exec (Build F) (Unit {0})
  primary_balance z branch_info bus_info idx = do
    l ← lift (primary_lines z bus_info idx 0 branch_info no_lines)
    phase_balance z idx (voltage_count z) 0 0 (l.k_frm_3p ++ l.k_frm_1pa) l.k_to_3p
    phase_balance z idx (voltage_count z) 0 1 (l.k_frm_3p ++ l.k_frm_1pb) l.k_to_3p
    phase_balance z idx (voltage_count z) 0 2 (l.k_frm_3p ++ l.k_frm_1pc) l.k_to_3p
    phase_balance z idx (voltage_count z + z.nbranch_abc * 3) 3 0 (l.k_frm_3p ++ l.k_frm_1qa)
        l.k_to_3p
    phase_balance z idx (voltage_count z + z.nbranch_abc * 3) 3 1 (l.k_frm_3p ++ l.k_frm_1qb)
        l.k_to_3p
    phase_balance z idx (voltage_count z + z.nbranch_abc * 3) 3 2 (l.k_frm_3p ++ l.k_frm_1qc)
        l.k_to_3p

  -- The body of the loop over the buses.
  unfoldable pub bus_balance :
      Sizes
      → Dict (AreaBranch F)
      → Dict (AreaBus F)
      → String
      → String × AreaBus F
      → Exec (Build F) (Unit {0})
  bus_balance z branch_info bus_info source_bus p =
      if str_eq p.0 source_bus
      then pure tt
      else if F.lt p.1.kv (F.literal 12 100)
      then secondary_balance z branch_info p.1.idx
      else primary_balance z branch_info bus_info p.1.idx

  unfoldable pub flow_constraints :
      Sizes → Dict (AreaBranch F) → Dict (AreaBus F) → String → Exec (Build F) (Unit {0})
  flow_constraints z branch_info bus_info source_bus =
      for_each bus_info (bus_balance z branch_info bus_info source_bus)
