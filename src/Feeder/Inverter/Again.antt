-- ===== src/Feeder/Inverter/Again.antt =====
-- A control that is applied again takes the same inverter, and one that would need two inverters is
-- refused.
use sgidal_example.Prelude.{
  String, ◌≡◌, ◌≢◌, refl, true, false, some, List, [], ◌∷◌, arith, ok, raise, assertion_error, Dict,
  lookup, mem, All, All-of_mem, has_key_of_lookup, eq_iff,
}
use sgidal_example.Floats.{Floats}
use sgidal_example.Feeder.Sim.{Sim, Registry}
use sgidal_example.Feeder.Inverter.{
  InverterControl, may_assign, create_inverter, inverters_of, wanted, find_inverter,
  apply_inverter_control,
}
use sgidal_example.Feeder.Inverter.Invariant.{IsConsistent}
use sgidal_example.Feeder.Inverter.Control.{
  SameInverters, apply-controls, apply-SameInverters, inverters_of-mem, inverters_of-one,
}

may_assign-taken :
    (r : Registry) (ps : List String) (p i : String)
    → mem p ps ≡ true
    → lookup p r.pvsystem_to_inverter ≡ some i
    → may_assign r ps ≡ false
unfolding may_assign
may_assign-taken r [] p i m e = absurd (cc)
may_assign-taken r (q ∷ ps) p i m e =
    ground
      (arith, may_assign-taken r ps p i, eq_iff q p, has_key_of_lookup p i r.pvsystem_to_inverter)

module _ {F : Floats} (ps : List String) (s : Sim F) (p q i j : String) (mp : mem p ps ≡ true)
    (mq : mem q ps ≡ true) (ep : lookup p s.registry.pvsystem_to_inverter ≡ some i)
    (eq : lookup q s.registry.pvsystem_to_inverter ≡ some j) (apart : i ≢ j) where
  create_refused : create_inverter ps s ≡ (raise assertion_error, s)
  unfolding create_inverter
  create_refused = ground (arith, may_assign-taken s.registry ps p i mp ep)

  find_refused : find_inverter ps s ≡ (raise assertion_error, s)
  unfolding find_inverter
  find_refused = go (inverters_of ps s.registry.pvsystem_to_inverter []) refl
    where
      go :
          (is : List String)
          → inverters_of ps s.registry.pvsystem_to_inverter [] ≡ is
          → find_inverter ps s ≡ (raise assertion_error, s)
      go [] e = rw (e, find_inverter) create_refused
      go (k ∷ []) e =
          let one = inverters_of-mem ps s.registry.pvsystem_to_inverter [] p i mp ep in
          let two = inverters_of-mem ps s.registry.pvsystem_to_inverter [] q j mq eq in
          absurd (ground (arith, rw e at one, rw e at two, eq_iff k i, eq_iff k j))
      go (k ∷ l ∷ more) e = rw (e, find_inverter) create_refused

inverters_of-All :
    (p : String) (ps : List String) (d : Dict String) (name : String)
    → All (λ x. lookup x d ≡ some name) (p ∷ ps)
    → inverters_of (p ∷ ps) d [] ≡ name ∷ []
unfolding inverters_of
inverters_of-All p ps d name h = rw (h.0, inverters_of) (inverters_of-one ps d name h.1)

find_one :
    {F : Floats} (ps : List String) (s : Sim F) (name : String)
    → inverters_of ps s.registry.pvsystem_to_inverter [] ≡ name ∷ []
    → find_inverter ps s ≡ (ok name, s)
unfolding find_inverter
find_one ps s name e = rw (e, find_inverter)

module _ {F : Floats} (c : InverterControl F) (s : Sim F) where
  -- A control for PV systems of which two have different inverters raises `AssertionError`, and
  -- changes neither the simulator nor OpenDSS.
  pub apply-conflict :
      (p q i j : String)
      → mem p (wanted c s.registry) ≡ true
      → mem q (wanted c s.registry) ≡ true
      → lookup p s.registry.pvsystem_to_inverter ≡ some i
      → lookup q s.registry.pvsystem_to_inverter ≡ some j
      → i ≢ j
      → apply_inverter_control c s ≡ (raise assertion_error, s)
  unfolding apply_inverter_control
  apply-conflict p q i j mp mq ep eq apart =
      ground (arith, find_refused (wanted c s.registry) s p q i j mp mq ep eq apart)

  abbrev after : Sim F
  after = (apply_inverter_control c s).1

  -- After a control has been applied to a list of one PV system or more, where the registry was
  -- consistent before, any control for the same list in the same order takes the same inverter and
  -- changes no assignment.
  pub apply-again :
      (name p : String) (ps : List String) (again : InverterControl F)
      → IsConsistent s.registry
      → (apply_inverter_control c s).0 ≡ ok name
      → wanted c s.registry ≡ p ∷ ps
      → wanted again after.registry ≡ p ∷ ps
      → (find_inverter (p ∷ ps) after ≡ (ok name, after))
        × SameInverters (apply_inverter_control again after).1.registry after.registry
  apply-again name p ps again v h w w' =
      let d = after.registry.pvsystem_to_inverter in
      let owned = All-of_mem (p ∷ ps) (λ x m. (apply-controls c s name v h x).1 (rw w m)) in
      let same = find_one (p ∷ ps) after name (inverters_of-All p ps d name owned) in
      let kept = apply-SameInverters again after in (same, ground (arith, kept, w', same))
