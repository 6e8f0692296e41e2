-- ===== src/Wls/Handled.antt =====
-- One round of the state estimator's loop.
use sgidal_example.Prelude.{
  ltb, Bool-cases, length, get_elem?, All, length-append, get_elem?-append_length, zip_with, Result,
  mem, ok, ℕ, suc, ◌+◌, ◌*◌, ◌<◌, String, ◌≡◌, refl, sym, ap, ◌∙◌, subst, inl, inr, Bool, true,
  Option, none, some, List, [], ◌∷◌, ◌++◌, arith, str_eq, eq_iff,
}
use mathlib.Core.List.{append_assoc}
use sgidal_example.Prelude.Exec.{Exec, modify, bind-ok, ◌>>◌}
use sgidal_example.Floats.{Floats}
use sgidal_example.Indexing.{get_indices}
use sgidal_example.Recorder.{Measurement}
use sgidal_example.Wls.Arrays.{Numpy}
use sgidal_example.Wls.Estimator.{Topology, Angles, LeastSquares}
use sgidal_example.Wls.Federate.{
  Inputs, Round, updated, granted, max_time, Publication, voltage_mag, voltage_angle, Estimator,
  slack_from, publish, angle_values, first_voltage, start_voltage, start_angle, estimate,
  publish_both, estimate_and_publish, handle,
}
use sgidal_example.Wls.Taken.{take_at-IsTaken, broadcast-even}
use sgidal_example.Wls.Posed.{IsWhole, with_base, get_indices-IsFound}
use sgidal_example.Wls.Estimated.{
  AnswersInSize, IsReady, IsReferenced, state_estimator-IsReferenced,
}

module _ {F : Floats} where
  -- The messages of a round are whole, and there is a voltage.
  abbrev pub IsComplete : Topology F → Inputs F → Type 0
  IsComplete topology m =
      IsWhole topology m.voltages
      × IsWhole topology m.power_p
      × IsWhole topology m.power_q
      × (0 < length (m.voltages).ids)

  -- A round before the last, with whole messages where it has any.
  abbrev pub IsGood : Topology F → Round F → Type 0
  IsGood topology (updated m) = IsComplete topology m
  IsGood topology granted = Unit
  IsGood topology max_time = ⊥

  abbrev pub inputs_of : List (Round F) → List (Inputs F)
  inputs_of [] = []
  inputs_of (updated m ∷ rounds) = m ∷ inputs_of rounds
  inputs_of (granted ∷ rounds) = inputs_of rounds
  inputs_of (max_time ∷ rounds) = inputs_of rounds

  -- A pair of publications for a message.
  pub record IsEstimateOf (topology : Topology F) (slack : ℕ) (m : Inputs F)
      (magnitude angle : Measurement F) : Type 0 where
    pub names : (magnitude.ids ≡ topology.ids) × (angle.ids ≡ topology.ids)
    pub times : (magnitude.time ≡ (m.voltages).time) × (angle.time ≡ (m.voltages).time)
    pub referenced :
        IsReferenced F (length topology.base_voltages) slack magnitude.values angle.values

  -- One such pair for each message, in order.
  abbrev pub ArePublished : Topology F → ℕ → List (Inputs F) → List (Publication F) → Type 0
  ArePublished topology slack [] [] = Unit
  ArePublished topology slack (m ∷ ms) (voltage_mag a ∷ voltage_angle b ∷ ps) =
      IsEstimateOf topology slack m a b × ArePublished topology slack ms ps
  ArePublished topology slack _ _ = ⊥

  -- The object's angles, where it has any, are one for each node.
  abbrev pub Fits : Topology F → Option (List F.Float) → Type 0
  Fits topology none = Unit
  Fits topology (some xs) = length xs ≡ length topology.base_voltages

  abbrev pub state :
      Option (List F.Float) → Option F.Float → List (Publication F) → Bool → Estimator F
  state ang v published disconnected = record {
    initial_ang = ang;
    initial_v = v;
    published = published;
    disconnected = disconnected;
  }

-- The index of the slack bus is that of a node of its name.
pub slack_from-named :
    (slack : String) (more ids before : List String) (i : ℕ) (found : Option ℕ)
    → i ≡ length before
    → ((f : ℕ) → found ≡ some f → get_elem? (before ++ ids) f ≡ some slack)
    → (found ≡ none → mem slack ids ≡ true)
    → (k : ℕ) × (slack_from i ids (slack ∷ more) found ≡ ok (some k))
      × (get_elem? (before ++ ids) k ≡ some slack)
unfolding slack_from
slack_from-named slack more [] before i none e hs hm = absurd (cc (hm refl))
slack_from-named slack more [] before i (some f) e hs hm = (f, refl, hs f refl)
slack_from-named slack more (x ∷ ids) before i found e hs hm =
    let shift = append_assoc before (x ∷ []) ids in
    let next : suc i ≡ length (before ++ x ∷ []) =
      omega (arith, e, length-append before (x ∷ [])) in
    elim (Bool-cases (str_eq x slack)) [
      | inl same ↦
          let here : get_elem? ((before ++ x ∷ []) ++ ids) i ≡ some slack =
            ap (λ l. get_elem? l i) shift
            ∙ subst (λ j. get_elem? (before ++ x ∷ ids) j ≡ some x) (sym e)
                (get_elem?-append_length before x ids)
            ∙ ap some ((eq_iff x slack).0 same) in
          let (k, done, at) =
            slack_from-named slack more ids (before ++ x ∷ []) (suc i) (some i) next
              (λ f h. subst (λ j. get_elem? ((before ++ x ∷ []) ++ ids) j ≡ some slack) (cc) here)
              (λ h. absurd (cc)) in
          (k, rw same done, ap (λ l. get_elem? l k) (sym shift) ∙ at)
      | inr different ↦
          let (k, done, at) =
            slack_from-named slack more ids (before ++ x ∷ []) (suc i) found next
              (λ f h. ap (λ l. get_elem? l f) shift ∙ hs f h)
              (λ h. let there = hm h in ground arith) in
          (k, rw different done, ap (λ l. get_elem? l k) (sym shift) ∙ at)
    ]

module _ {F : Floats} (np : Numpy F) (tol base_power : F.Float) (least_squares : LeastSquares F)
    (answers : AnswersInSize F least_squares) (topology : Topology F) (ready : IsReady topology)
    (slack : ℕ) (inside : slack < length topology.base_voltages) where
  first_voltage_total :
      (m : Inputs F)
      → IsWhole topology m.voltages
      → (v : F.Float) × (first_voltage np topology m ≡ ok v)
  unfolding first_voltage
  first_voltage_total m w =
      let (ks, f) = get_indices-IsFound topology.ids (m.voltages).ids w.1 in
      let (bases, t) =
        take_at-IsTaken topology.base_voltages ks
          (subst (λ n. All (λ k. k < n) ks) ready.size f.in_range) in
      let even =
        broadcast-even F.over (m.voltages).values bases (w.0 ∙ sym f.as_many ∙ sym t.as_many) in
      elim (Bool-cases (
        ltb (length topology.ids * 2)
          (length (m.power_p).ids + length (m.voltages).ids + length (m.power_q).ids))) [
            | inl flat_start ↦ (F.from_ℕ 1, rw flat_start refl)
            | inr average ↦ (
              np.mean (zip_with F.over (m.voltages).values bases),
              rw (average, f.found, t.taken, even) refl,
            )
          ]

  start_voltage-ok :
      (m : Inputs F)
      → IsWhole topology m.voltages
      → (ang : Option (List F.Float)) (v : Option F.Float) (ps : List (Publication F)) (out : Bool)
      → (x : F.Float) × (start_voltage np topology m (state ang v ps out)
          ≡ (ok tt, state ang (some x) ps out))
  unfolding start_voltage
  start_voltage-ok m w ang none ps out =
      let (x, e) = first_voltage_total m w in (x, rw (start_voltage, e) refl)
  start_voltage-ok m w ang (some x) ps out = (x, refl)

  start_angle-ok :
      (ang : Option (List F.Float)) (v : Option F.Float) (ps : List (Publication F)) (out : Bool)
      → Fits topology ang
      → (xs : List F.Float) × (start_angle topology (state ang v ps out) ≡ state (some xs) v ps out)
        × (length xs ≡ length topology.base_voltages)
  unfolding start_angle
  start_angle-ok none v ps out h = (topology.base_angles, refl, ready.angles)
  start_angle-ok (some xs) v ps out h = (xs, refl, h)

  pub handle-IsEstimateOf :
      (m : Inputs F)
      → IsComplete topology m
      → (ang : Option (List F.Float)) (v : Option F.Float) (ps : List (Publication F)) (out : Bool)
      → Fits topology ang
      → (xs : List F.Float) × (x : F.Float) × (a b : Measurement F) × (handle np least_squares
            (with_base np tol base_power)
            topology
            (some slack)
            m
            (state ang v ps out)
          ≡ (ok tt, state (some xs) (some x) (ps ++ (voltage_mag a ∷ voltage_angle b ∷ [])) out))
        × (length xs ≡ length topology.base_voltages)
        × IsEstimateOf topology slack m a b
  unfolding handle estimate estimate_and_publish publish_both publish angle_values
  handle-IsEstimateOf m w ang v ps out fits =
      let (ks, f) = get_indices-IsFound topology.ids (m.voltages).ids (w.0).1 in
      let (x, started) = start_voltage-ok m w.0 ang v ps out in
      let (xs, turned, many) = start_angle-ok ang (some x) ps out fits in
      let (mags, angles, found, referenced) =
        state_estimator-IsReferenced np tol base_power least_squares answers topology m.power_p
          m.power_q m.voltages xs x slack ready w.1 w.2 w.0 w.3 many inside in
      let message : List F.Float → Measurement F =
        λ (l : List F.Float). record { ids = topology.ids; values = l; time = (m.voltages).time } in
      let parameters = with_base np tol base_power in
      let estimated : Estimator F → Result (List F.Float × Angles F) =
        λ (s : Estimator F). estimate np least_squares parameters topology (some slack) m s in
      let last = estimate_and_publish np least_squares parameters topology (some slack) m in
      let after_voltage : Exec (Estimator F) (Unit {0}) = modify (start_angle topology) >> last in
      let after_indices : Exec (Estimator F) (Unit {0}) =
        start_voltage np topology m >> after_voltage in
      (
        xs,
        x,
        message mags,
        message angles,
        bind-ok (λ s. (get_indices (m.voltages).ids topology.ids, s)) (λ _. after_indices)
              (ap (λ r. (r, state ang v ps out)) f.found)
            ∙ bind-ok (start_voltage np topology m) (λ _. after_voltage) started
            ∙ bind-ok (modify (start_angle topology)) (λ _. last) (ap (λ s. (ok tt, s)) turned)
            ∙ bind-ok (λ s. (estimated s, s)) (λ r. publish_both topology m r)
                (ap (λ r. (r, state (some xs) (some x) ps out)) found)
            ∙ ap (λ l. (ok tt, state (some xs) (some x) l out))
                (append_assoc ps (voltage_mag (message mags) ∷ [])
                  (voltage_angle (message angles) ∷ [])),
        many,
        record { names = (refl, refl); times = (refl, refl); referenced = referenced },
      )
