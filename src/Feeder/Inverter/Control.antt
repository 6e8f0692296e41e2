-- ===== src/Feeder/Inverter/Control.antt =====
-- What `apply_inverter_control` does: which inverter it takes, and what it leaves in the registry.
use sgidal_example.Prelude.{
  String, ◌≡◌, refl, ap, ◌∙◌, inl, inr, true, Option, none, some, List, [], ◌∷◌, arith, Result, ok,
  Dict, lookup, mem, set_eq, All, Bool-cases, Option-cases, eq_iff, str_eq, Result-cases, add,
  set_eq-mem, mem-add, eq_refl, ◌↔◌,
}
use sgidal_example.Floats.{Floats}
use sgidal_example.Feeder.Sim.{Sim, Registry}
use sgidal_example.Feeder.Inverter.{
  InverterControl, when_some, VoltVar, VoltWatt, create_xy_curve, set_vvcontrol, set_vwcontrol,
  set_properties_to_inverter, inverters_of, wanted, find_inverter, apply_inverter_control,
}
use sgidal_example.Feeder.Inverter.Invariant.{IsConsistent, create_inverter-IsConsistent}

-- The same but for the curve counter.
abbrev pub SameInverters : Registry → Registry → Type 0
SameInverters a b =
    (a.pvsystems ≡ b.pvsystems)
    × (a.inverters ≡ b.inverters)
    × (a.inverter_to_pvsystems ≡ b.inverter_to_pvsystems)
    × (a.pvsystem_to_inverter ≡ b.pvsystem_to_inverter)
    × (a.inverter_counter ≡ b.inverter_counter)

SameInverters-IsConsistent : (a b : Registry) → SameInverters a b → IsConsistent b → IsConsistent a
SameInverters-IsConsistent a b same v = record {
  owner =
      λ p i e. let (ps, found, inside) = v.owner p i (ground arith) in (ps, ground arith, inside);
  owned = λ p i ps e m. ground (arith, v.owned p i ps);
  named = λ i ps e. let (n, below, eq) = v.named i ps (ground arith) in (n, ground arith, eq);
}

module _ {F : Floats} (inverter : String) (s : Sim F) where
  vvcontrol-SameInverters :
      (vv : VoltVar F) → SameInverters (set_vvcontrol inverter vv s).1.registry s.registry
  unfolding set_vvcontrol create_xy_curve
  vvcontrol-SameInverters vv = ground arith

  vwcontrol-SameInverters :
      (vw : VoltWatt F) → SameInverters (set_vwcontrol inverter vw s).1.registry s.registry
  unfolding set_vwcontrol create_xy_curve
  vwcontrol-SameInverters vw = ground arith

  some_vvcontrol-SameInverters :
      (o : Option (VoltVar F))
      → SameInverters (when_some o (set_vvcontrol inverter) s).1.registry s.registry
  some_vvcontrol-SameInverters none = ground arith
  some_vvcontrol-SameInverters (some vv) = vvcontrol-SameInverters vv

  some_vwcontrol-SameInverters :
      (o : Option (VoltWatt F))
      → SameInverters (when_some o (set_vwcontrol inverter) s).1.registry s.registry
  some_vwcontrol-SameInverters none = ground arith
  some_vwcontrol-SameInverters (some vw) = vwcontrol-SameInverters vw

module _ {F : Floats} (inverter : String) (c : InverterControl F) (s : Sim F) where
  -- Setting the properties of an inverter changes no assignment, also where it raises.
  pub properties-SameInverters :
      SameInverters (set_properties_to_inverter inverter c s).1.registry s.registry
  unfolding set_properties_to_inverter
  properties-SameInverters =
      let after_vv : Sim F = (when_some c.vvcontrol (set_vvcontrol inverter) s).1 in
      ground (
        arith,
        some_vvcontrol-SameInverters inverter s c.vvcontrol,
        some_vwcontrol-SameInverters inverter after_vv c.vwcontrol,
      )

module _ {F : Floats} (ps : List String) (s : Sim F) where
  find_inverter-IsConsistent :
      IsConsistent s.registry → IsConsistent (find_inverter ps s).1.registry
  unfolding find_inverter
  find_inverter-IsConsistent v = go (inverters_of ps s.registry.pvsystem_to_inverter []) refl
    where
      go :
          (is : List String)
          → inverters_of ps s.registry.pvsystem_to_inverter [] ≡ is
          → IsConsistent (find_inverter ps s).1.registry
      go [] e = rw (e, find_inverter) (create_inverter-IsConsistent ps s v)
      go (i ∷ []) e = rw (e, find_inverter) v
      go (i ∷ j ∷ more) e = rw (e, find_inverter) (create_inverter-IsConsistent ps s v)

module _ {F : Floats} (c : InverterControl F) (s : Sim F) where
  abbrev pub pvs : List String
  pvs = wanted c s.registry

  abbrev pub found : Result String × Sim F
  found = find_inverter pvs s

  -- The registry comes from the search for an inverter alone.
  pub apply-SameInverters : SameInverters (apply_inverter_control c s).1.registry found.1.registry
  unfolding apply_inverter_control
  apply-SameInverters = elim (Result-cases found.0) [
    | inr (e, failed) ↦ ground arith
    | inl (i, done) ↦ ground (arith, properties-SameInverters i c found.1)
  ]

  -- Applying a control keeps the maps between PV systems and inverters inverse to one another,
  -- whether it succeeds or raises.
  pub apply-IsConsistent :
      IsConsistent s.registry → IsConsistent (apply_inverter_control c s).1.registry
  apply-IsConsistent v =
      SameInverters-IsConsistent _ _ apply-SameInverters (find_inverter-IsConsistent pvs s v)

  -- The inverter that is returned controls a set equal to the one that was asked for.
  apply-set :
      (name : String)
      → (apply_inverter_control c s).0 ≡ ok name
      → (qs : List String) × (lookup name
            (apply_inverter_control c s).1.registry.inverter_to_pvsystems
          ≡ some qs)
        × (set_eq qs pvs ≡ true)
  unfolding apply_inverter_control
  apply-set name h = elim (Result-cases found.0) [
    | inr (e, failed) ↦ absurd (ground arith)
    | inl (i, done) ↦ elim (Option-cases (lookup i found.1.registry.inverter_to_pvsystems)) [
      | inl e ↦ absurd (ground arith)
      | inr (qs, e) ↦
          let same : name ≡ i = ground arith in
          (qs, ground (arith, apply-SameInverters), ground arith)
    ]
  ]

  -- The PV systems of the inverter that `apply_inverter_control` returns are exactly those that were
  -- asked for.
  pub apply-controls :
      (name : String)
      → IsConsistent s.registry
      → (apply_inverter_control c s).0 ≡ ok name
      → (p : String)
      → (lookup p (apply_inverter_control c s).1.registry.pvsystem_to_inverter ≡ some name)
        ↔ (mem p pvs ≡ true)
  apply-controls name v h p =
      let after = apply-IsConsistent v in
      let (qs, set, eq) = apply-set name h in
      (
        λ e.
            let (ps, found, inside) = after.owner p name e in
            (set_eq-mem p qs pvs eq).0 (ground arith),
        λ m. after.owned p name qs set ((set_eq-mem p qs pvs eq).1 m),
      )

mem-add_self : (i : String) (xs : List String) → mem i (add i xs) ≡ true
mem-add_self i xs = ground (arith, mem-add i i xs, eq_iff i i)

inverters_of-keeps :
    (ps : List String) (d : Dict String) (is : List String) (i : String)
    → mem i is ≡ true
    → mem i (inverters_of ps d is) ≡ true
unfolding inverters_of
inverters_of-keeps [] d is i m = m
inverters_of-keeps (p ∷ ps) d is i m = elim (Option-cases (lookup p d)) [
  | inl e ↦ rw (e, inverters_of) (inverters_of-keeps ps d is i m)
  | inr (j, e) ↦
      rw (e, inverters_of) (inverters_of-keeps ps d (add j is) i (ground (arith, mem-add i j is)))
]

pub inverters_of-mem :
    (ps : List String) (d : Dict String) (is : List String) (p i : String)
    → mem p ps ≡ true
    → lookup p d ≡ some i
    → mem i (inverters_of ps d is) ≡ true
unfolding inverters_of
inverters_of-mem [] d is p i m e = absurd (cc)
inverters_of-mem (q ∷ ps) d is p i m e = elim (Bool-cases (str_eq q p)) [
  | inl same ↦
      let eq = (eq_iff q p).0 same in
      rw (ap (λ k. lookup k d) eq ∙ e, inverters_of)
        (inverters_of-keeps ps d (add i is) i (mem-add_self i is))
  | inr other ↦ elim (Option-cases (lookup q d)) [
    | inl free ↦ rw (free, inverters_of) (inverters_of-mem ps d is p i (ground arith) e)
    | inr (j, taken) ↦
        rw (taken, inverters_of) (inverters_of-mem ps d (add j is) p i (ground arith) e)
  ]
]

pub inverters_of-one :
    (ps : List String) (d : Dict String) (name : String)
    → All (λ p. lookup p d ≡ some name) ps
    → inverters_of ps d (name ∷ []) ≡ name ∷ []
unfolding inverters_of
inverters_of-one [] d name h = refl
inverters_of-one (p ∷ ps) d name h =
    rw (h.0, inverters_of, add, eq_refl) (inverters_of-one ps d name h.1)
