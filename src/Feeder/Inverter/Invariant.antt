-- ===== src/Feeder/Inverter/Invariant.antt =====
-- The two maps between PV systems and inverters stay inverse to one another, and every new inverter
-- has a new name.
use text.Mathlib.TextLemmas.{append_cancel_left}
use sgidal_example.Prelude.{
  ℕ, ◌+◌, ◌<◌, String, ◌≡◌, refl, sym, ◌⊎◌, inl, inr, true, none, some, List, [], ◌∷◌, arith, Error,
  assertion_error, ok, raise, Dict, insert, lookup, mem, all, Bool-cases, Option-cases,
  lookup-insert, has_key_of_lookup, eq_iff, str_eq, decimal, decimal_injective, if◌then◌else◌,
  map_result, Result-cases,
}
use sgidal_example.Floats.{Floats}
use sgidal_example.Feeder.Sim.{Sim, Registry}
use sgidal_example.Feeder.Inverter.{
  inverter_name, is_pvsystem, may_assign, pv_list, assign_all, register, create_inverter,
}

pub record IsConsistent (r : Registry) : Type 0 where
  -- The inverter of a PV system controls that PV system.
  pub owner :
      (p i : String)
      → lookup p r.pvsystem_to_inverter ≡ some i
      → (ps : List String) × (lookup i r.inverter_to_pvsystems ≡ some ps) × (mem p ps ≡ true)
  -- A PV system that an inverter controls has that inverter.
  pub owned :
      (p i : String) (ps : List String)
      → lookup i r.inverter_to_pvsystems ≡ some ps
      → mem p ps ≡ true
      → lookup p r.pvsystem_to_inverter ≡ some i
  -- The names in use were made from smaller counters.
  pub named :
      (i : String) (ps : List String)
      → lookup i r.inverter_to_pvsystems ≡ some ps
      → (n : ℕ) × (n < r.inverter_counter) × (i ≡ inverter_name n)

pub inverter_name-injective : (m n : ℕ) → inverter_name m ≡ inverter_name n → m ≡ n
unfolding inverter_name
inverter_name-injective m n h =
    decimal_injective m n (append_cancel_left "InvControl.invgenerated" (decimal m) (decimal n) h)

pub lookup-assign_all :
    (p : String) (ps : List String) (name : String) (d : Dict String)
    → lookup p (assign_all ps name d) ≡ (if mem p ps then some name else lookup p d)
unfolding assign_all
lookup-assign_all p [] name d = refl
lookup-assign_all p (q ∷ ps) name d =
    ground (arith, lookup-assign_all p ps name (insert q name d), lookup-insert q p name d)

may_assign-free :
    (r : Registry) (ps : List String) (p : String)
    → may_assign r ps ≡ true
    → mem p ps ≡ true
    → lookup p r.pvsystem_to_inverter ≡ none
unfolding may_assign
may_assign-free r [] p h m = absurd (cc)
may_assign-free r (q ∷ ps) p h m = elim (Bool-cases (str_eq q p)) [
  | inl same ↦ elim (Option-cases (lookup p r.pvsystem_to_inverter)) [
    | inl free ↦ free
    | inr (i, taken) ↦
        absurd (ground (arith, eq_iff q p, has_key_of_lookup p i r.pvsystem_to_inverter taken))
  ]
  | inr other ↦ may_assign-free r ps p (ground arith) (ground arith)
]

module _ (r : Registry) (v : IsConsistent r) (ps : List String)
    (free : may_assign r ps ≡ true) where
  abbrev new : String
  new = inverter_name r.inverter_counter

  -- The new name is not in use.
  pub new_name : lookup new r.inverter_to_pvsystems ≡ none
  new_name = elim (Option-cases (lookup new r.inverter_to_pvsystems)) [
    | inl e ↦ e
    | inr (qs, e) ↦
        let (n, below, same) = v.named new qs e in
        absurd (omega (arith, inverter_name-injective r.inverter_counter n same))
  ]

  register-owner :
      (p i : String)
      → lookup p (assign_all ps new r.pvsystem_to_inverter) ≡ some i
      → (qs : List String) × (lookup i (insert new ps r.inverter_to_pvsystems) ≡ some qs)
        × (mem p qs ≡ true)
  register-owner p i e = elim (Bool-cases (mem p ps)) [
    | inl m ↦
        let same : i ≡ new = ground (arith, lookup-assign_all p ps new r.pvsystem_to_inverter) in
        (ps, ground (arith, lookup-insert new i ps r.inverter_to_pvsystems, eq_iff new i), m)
    | inr m ↦
        let (qs, found, inside) =
          v.owner p i (ground (arith, lookup-assign_all p ps new r.pvsystem_to_inverter)) in
        (
          qs,
          ground (arith, lookup-insert new i ps r.inverter_to_pvsystems, eq_iff new i, new_name),
          inside,
        )
  ]

  register-owned :
      (p i : String) (qs : List String)
      → lookup i (insert new ps r.inverter_to_pvsystems) ≡ some qs
      → mem p qs ≡ true
      → lookup p (assign_all ps new r.pvsystem_to_inverter) ≡ some i
  register-owned p i qs e m = elim (Bool-cases (str_eq new i)) [
    | inl same ↦ ground (
      arith,
      lookup-insert new i ps r.inverter_to_pvsystems,
      lookup-assign_all p ps new r.pvsystem_to_inverter,
      eq_iff new i,
    )
    | inr other ↦ ground (
      arith,
      lookup-insert new i ps r.inverter_to_pvsystems,
      lookup-assign_all p ps new r.pvsystem_to_inverter,
      v.owned p i qs,
      may_assign-free r ps p free,
    )
  ]

  register-named :
      (i : String) (qs : List String)
      → lookup i (insert new ps r.inverter_to_pvsystems) ≡ some qs
      → (n : ℕ) × (n < r.inverter_counter + 1) × (i ≡ inverter_name n)
  register-named i qs e = elim (Bool-cases (str_eq new i)) [
    | inl same ↦ (r.inverter_counter, omega arith, sym ((eq_iff new i).0 same))
    | inr other ↦
        let (n, below, same) =
          v.named i qs (ground (arith, lookup-insert new i ps r.inverter_to_pvsystems)) in
        (n, omega arith, same)
  ]

  pub register-IsConsistent : IsConsistent (register new ps r)
  unfolding register
  register-IsConsistent = record {
    owner = register-owner;
    owned = register-owned;
    named = register-named;
  }

module _ {F : Floats} (ps : List String) (s : Sim F) where
  abbrev next_name : String
  next_name = inverter_name s.registry.inverter_counter

  -- The set is registered under the next name.
  abbrev Created : Type 0
  Created =
      ((create_inverter ps s).0 ≡ ok next_name)
      × (may_assign s.registry ps ≡ true)
      × ((create_inverter ps s).1.registry ≡ register next_name ps s.registry)

  -- An error is raised and the registry is as it was.
  abbrev Refused : Type 0
  Refused =
      (e : Error) × ((create_inverter ps s).0 ≡ raise e)
      × ((create_inverter ps s).1.registry ≡ s.registry)

  pub create_inverter-cases : Created ⊎ Refused
  unfolding create_inverter
  create_inverter-cases = elim (Bool-cases (may_assign s.registry ps)) [
    | inr taken ↦ inr (assertion_error, ground arith, ground arith)
    | inl free ↦ elim (Result-cases (map_result is_pvsystem ps)) [
      | inr (e, bad) ↦ inr (e, ground arith, ground arith)
      | inl (kinds, good) ↦ elim (Bool-cases (all (λ k. k) kinds)) [
        | inr other ↦ inr (assertion_error, ground arith, ground arith)
        | inl pv ↦ elim (Result-cases (pv_list ps s.registry.pvsystems)) [
          | inr (e, bad) ↦ inr (e, ground arith, ground arith)
          | inl (names, listed) ↦ inl (ground arith, free, ground arith)
        ]
      ]
    ]
  ]

  -- Whether it succeeds or raises, `create_inverter` keeps the two maps inverse to one another.
  pub create_inverter-IsConsistent :
      IsConsistent s.registry → IsConsistent (create_inverter ps s).1.registry
  create_inverter-IsConsistent v = elim create_inverter-cases [
    | inl (done, free, new_registry) ↦ rw new_registry (register-IsConsistent s.registry v ps free)
    | inr (e, failed, same) ↦ rw same v
  ]
