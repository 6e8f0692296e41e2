-- ===== src/Adapter/Measurements.antt =====
-- Voltages and powers of the buses: `extract_voltages`, `extract_powers`, `extract_injection`,
-- `extract_info` and `pack_voltages`.
use sgidal_example.Prelude.{
  if◌then◌else◌, get_elem?, set, or_raise, Result, contains, Dict, has_key, update,
  unbound_local_error, ok, ℕ, String, append, Option, none, some, List, [], ◌∷◌, ◌++◌, str_eq,
  ◌>>=◌,
}
use sgidal_example.Floats.{Floats, Complex}
use sgidal_example.Adapter.Info.{Bus, split_pair, phase_index}
use sgidal_example.Adapter.Extract.{Admittance, Network, add_edges, index_info}

-- One row of `zip(ids, equipment_ids, values)`.
abbrev pub Power : Floats → Type 0
Power F = String × String × F.Float

-- What a loop does to a bus: the kind of the equipment, its name, the phase and the power.
abbrev pub Setter : Floats → Type 0
Setter F = String → String → ℕ → F.Float → Bus F → Bus F

-- `pairs[i][0] = v` and `pairs[i][1] = v`
abbrev pub set_real : {A : Type 0} → ℕ → A → List (A × A) → List (A × A)
set_real i v pairs = elim (get_elem? pairs i) [ none ↦ pairs | some pair ↦ set pairs i (v, pair.1) ]

abbrev pub set_imag : {A : Type 0} → ℕ → A → List (A × A) → List (A × A)
set_imag i v pairs = elim (get_elem? pairs i) [ none ↦ pairs | some pair ↦ set pairs i (pair.0, v) ]

module _ {F : Floats} where
  -- The loop over `zip(voltages.ids, voltages.values)`.
  unfoldable pub extract_voltages : List (String × F.Float) → Dict (Bus F) → Result (Dict (Bus F))
  extract_voltages [] buses = ok buses
  extract_voltages ((id, voltage) ∷ rest) buses = split_pair id >>= λ parts. extract_voltages rest (
      if has_key parts.0 buses
      then update parts.0 (λ b. record b { kv = F.over voltage (F.from_ℕ 1000) }) buses
      else buses)

  -- The end of the body of the first loop of `extract_powers`.
  unfoldable pub powers_real : Setter F
  powers_real kind eq phase power b =
      if str_eq kind "PVSystem"
      then record b { eqid = some eq; pv = set_real phase (F.times power (F.from_ℕ 1000)) b.pv }
      else record b {
        eqid = some eq;
        pq = set_real phase (F.times (F.neg power) (F.from_ℕ 1000)) b.pq;
      }

  -- The end of the body of its second loop.
  unfoldable pub powers_imag : Setter F
  powers_imag kind eq phase power b =
      if str_eq kind "PVSystem"
      then record b { eqid = some eq; pv = set_imag phase (F.times power (F.from_ℕ 1000)) b.pv }
      else record b {
        eqid = some eq;
        pq = set_imag phase (F.times (F.neg power) (F.from_ℕ 1000)) b.pq;
      }

  -- The two loops of `extract_powers`.
  unfoldable pub extract_powers_real : List (Power F) → Dict (Bus F) → Result (Dict (Bus F))
  extract_powers_real [] buses = ok buses
  extract_powers_real ((id, eq, power) ∷ rest) buses = split_pair id >>= λ parts.
      (if has_key parts.0 buses
        then (split_pair eq >>= λ kind. phase_index 3 parts.1 >>= λ i.
            ok (update parts.0 (powers_real kind.0 eq i power) buses))
        else ok buses)
      >>= λ next. extract_powers_real rest next

  unfoldable pub extract_powers_imag : List (Power F) → Dict (Bus F) → Result (Dict (Bus F))
  extract_powers_imag [] buses = ok buses
  extract_powers_imag ((id, eq, power) ∷ rest) buses = split_pair id >>= λ parts.
      (if has_key parts.0 buses
        then (split_pair eq >>= λ kind. phase_index 3 parts.1 >>= λ i.
            ok (update parts.0 (powers_imag kind.0 eq i power) buses))
        else ok buses)
      >>= λ next. extract_powers_imag rest next

  unfoldable pub extract_powers :
      List (Power F) → List (Power F) → Dict (Bus F) → Result (Dict (Bus F))
  extract_powers real imag buses =
      extract_powers_real real buses >>= λ next. extract_powers_imag imag next

  -- The end of the body of the first loop of `extract_injection`.
  unfoldable pub injection_real : Setter F
  injection_real kind eq phase power b =
      if str_eq kind "PVSystem"
      then record b { eqid = some eq; pv = set_real phase (F.times power (F.from_ℕ 1000)) b.pv }
      else record b {
        eqid = some eq;
        pq = set_real phase (F.times (F.neg power) (F.from_ℕ 1000)) b.pq;
      }

  -- The end of the body of its second loop.
  unfoldable pub injection_imag : Setter F
  injection_imag kind eq phase power b =
      if str_eq kind "PVSystem"
      then record b { eqid = some eq; pv = set_imag phase (F.times power (F.from_ℕ 1000)) b.pv }
      else record b {
        eqid = some eq;
        pq = set_imag phase (F.times (F.neg power) (F.from_ℕ 1000)) b.pq;
      }

  -- The two loops of `extract_injection`, which pass over the buses of open switches too.
  unfoldable pub extract_injection_real : List (Power F) → Dict (Bus F) → Result (Dict (Bus F))
  extract_injection_real [] buses = ok buses
  extract_injection_real ((id, eq, power) ∷ rest) buses = split_pair id >>= λ parts.
      (if has_key parts.0 buses
        then (if contains parts.0 "OPEN"
            then ok buses
            else split_pair eq >>= λ kind. phase_index 3 parts.1 >>= λ i.
                ok (update parts.0 (injection_real kind.0 eq i power) buses))
        else ok buses)
      >>= λ next. extract_injection_real rest next

  unfoldable pub extract_injection_imag : List (Power F) → Dict (Bus F) → Result (Dict (Bus F))
  extract_injection_imag [] buses = ok buses
  extract_injection_imag ((id, eq, power) ∷ rest) buses = split_pair id >>= λ parts.
      (if has_key parts.0 buses
        then (if contains parts.0 "OPEN"
            then ok buses
            else split_pair eq >>= λ kind. phase_index 3 parts.1 >>= λ i.
                ok (update parts.0 (injection_imag kind.0 eq i power) buses))
        else ok buses)
      >>= λ next. extract_injection_imag rest next

  unfoldable pub extract_injection :
      List (Power F) → List (Power F) → Dict (Bus F) → Result (Dict (Bus F))
  extract_injection real imag buses =
      extract_injection_real real buses >>= λ next. extract_injection_imag imag next

-- The suffix of a phase's letter.
abbrev phase_suffix : String → Option String
phase_suffix phase =
    if str_eq phase "A"
    then some ".1"
    else if str_eq phase "B"
    then some ".2"
    else if str_eq phase "C"
    then some ".3"
    else none

module _ {A : Type 0} where
  -- `id` keeps its last value where the phase is none of the three, and has none at first.
  unfoldable pub pack_phases :
      String → Option String → Dict A → Result (Option String × List (String × A))
  pack_phases key last [] = ok (last, [])
  pack_phases key last ((phase, voltage) ∷ rest) =
      let id : Option String = elim (phase_suffix phase) [
        | none ↦ last
        | some suffix ↦ some (append key suffix)
      ] in
      or_raise id unbound_local_error >>= λ found.
      pack_phases key id rest >>= λ packed. ok (packed.0, (found, voltage) ∷ packed.1)

  unfoldable pub pack_buses : Option String → Dict (Dict A) → Result (List (String × A))
  pack_buses last [] = ok []
  pack_buses last ((key, value) ∷ rest) = pack_phases key last value >>= λ packed.
      pack_buses packed.0 rest >>= λ others. ok (packed.1 ++ others)

  unfoldable pub pack_voltages : Dict (Dict A) → Result (List (String × A))
  pack_voltages voltages = pack_buses none voltages

module _ {F : Floats} (neg_pinv : List (List (Complex F)) → List (List (Complex F))) where
  -- The topology is read for its admittances and its base voltages.
  unfoldable pub extract_info : List (Admittance F) → List (String × F.Float) → Result (Network F)
  extract_info admittances base_voltages =
      add_edges admittances (record { branch_info = []; bus_info = [] }) >>= λ n.
      extract_voltages base_voltages n.bus_info >>= λ buses. index_info neg_pinv n.branch_info buses
