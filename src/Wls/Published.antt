-- ===== src/Wls/Published.antt =====
-- The loop of the state estimator from the first grant of time to the last.
use sgidal_example.Prelude.{
  length, get_elem?, All, lt_of_get_elem?, mem, ok, ℕ, ◌<◌, String, ◌≡◌, refl, sym, ap, ◌∙◌, Bool,
  true, Option, none, some, List, [], ◌∷◌, ◌++◌, arith,
}
use mathlib.Core.List.{append-nil, append_assoc}
use sgidal_example.Prelude.Exec.{Exec, bind-ok, ◌>>=◌}
use sgidal_example.Floats.{Floats}
use sgidal_example.Wls.Arrays.{Numpy}
use sgidal_example.Wls.Estimator.{Topology, LeastSquares}
use sgidal_example.Wls.Federate.{
  Round, updated, granted, max_time, Publication, voltage_mag, voltage_angle, Estimator, slack_from,
  check_admittance, destroy, handle, loop, run,
}
use sgidal_example.Wls.Posed.{with_base}
use sgidal_example.Wls.Estimated.{AnswersInSize, IsReady}
use sgidal_example.Wls.Handled.{
  IsGood, inputs_of, ArePublished, state, Fits, slack_from-named, handle-IsEstimateOf,
}

module _ {F : Floats} (np : Numpy F) (tol base_power : F.Float) (least_squares : LeastSquares F)
    (answers : AnswersInSize F least_squares) (topology : Topology F) (ready : IsReady topology)
    (slack : ℕ) (inside : slack < length topology.base_voltages) where
  loop_publishes :
      (rounds later : List (Round F))
      → All (IsGood topology) rounds
      → (ang : Option (List F.Float)) (v : Option F.Float) (ps : List (Publication F)) (out : Bool)
      → Fits topology ang
      → (end : Estimator F) × (qs : List (Publication F)) × (loop np least_squares
            (with_base np tol base_power)
            topology
            (some slack)
            (rounds ++ max_time ∷ later)
            (state ang v ps out)
          ≡ (ok tt, end))
        × (end.disconnected ≡ true)
        × (end.published ≡ ps ++ qs)
        × ArePublished topology slack (inputs_of rounds) qs
  unfolding loop destroy
  loop_publishes [] later h ang v ps out fits =
      (state ang v ps true, [], refl, refl, sym (append-nil ps), tt)
  loop_publishes (granted ∷ rounds) later h ang v ps out fits =
      loop_publishes rounds later h.1 ang v ps out fits
  loop_publishes (max_time ∷ rounds) later h ang v ps out fits = absurd h.0
  loop_publishes (updated m ∷ rounds) later h ang v ps out fits =
      let (xs, x, a, b, first, many, estimates) =
        handle-IsEstimateOf np tol base_power least_squares answers topology ready slack inside m
          h.0 ang v ps out fits in
      let both = voltage_mag a ∷ voltage_angle b ∷ [] in
      let (end, qs, rest, gone, all_published, pairs) =
        loop_publishes rounds later h.1 (some xs) (some x) (ps ++ both) out many in
      let parameters = with_base np tol base_power in
      (
        end,
        both ++ qs,
        bind-ok (handle np least_squares parameters topology (some slack) m)
              (λ _.
                loop np least_squares parameters topology (some slack) (rounds ++ max_time ∷ later))
              first
            ∙ rest,
        gone,
        all_published ∙ append_assoc ps both qs,
        (estimates, pairs),
      )

module _ {F : Floats} (np : Numpy F) (tol base_power : F.Float) (least_squares : LeastSquares F)
    (answers : AnswersInSize F least_squares) where
  -- Where the solver, given residuals and a Jacobian that are returned in one shape at every point of
  -- the size of the start, answers with an array of that size, the topology has a base voltage and an
  -- angle for each node, a square admittance matrix and a slack bus among its nodes, and the messages
  -- are whole with one voltage at least: however many rounds come before HELICS grants the maximum, `run`
  -- ends without an error and has left HELICS. For each message with new voltages it has published
  -- one magnitude and one angle for each node, in order, under the nodes' names and with the
  -- message's time; the angle of the slack bus is taken off itself.
  pub run_ends :
      (topology : Topology F) (slack : String) (more : List String) (rounds later : List (Round F))
      (s : Estimator F)
      → IsReady topology
      → check_admittance topology.admittance ≡ ok tt
      → topology.slack_bus ≡ slack ∷ more
      → mem slack topology.ids ≡ true
      → All (IsGood topology) rounds
      → (k : ℕ) × (end : Estimator F) × (qs : List (Publication F)) × (run np least_squares
            (with_base np tol base_power)
            topology
            true
            (rounds ++ max_time ∷ later)
            s
          ≡ (ok tt, end))
        × (get_elem? topology.ids k ≡ some slack)
        × (end.disconnected ≡ true)
        × (end.published ≡ s.published ++ qs)
        × ArePublished topology k (inputs_of rounds) qs
  unfolding run
  run_ends topology slack more rounds later s ready checked named there good =
      let (k, found, at) =
        slack_from-named slack more topology.ids [] 0 none refl (λ f h. absurd (cc)) (λ _. there) in
      let inside : k < length topology.base_voltages =
        omega (arith, ready.size, lt_of_get_elem? topology.ids k slack at) in
      let (end, qs, looped, gone, all_published, pairs) =
        loop_publishes np tol base_power least_squares answers topology ready k inside rounds later
          good none none s.published s.disconnected tt in
      let found' : slack_from 0 topology.ids topology.slack_bus none ≡ ok (some k) =
        ap (λ l. slack_from 0 topology.ids l none) named ∙ found in
      let fresh : Estimator F = state none none s.published s.disconnected in
      let enter : Option ℕ → Exec (Estimator F) (Unit {0}) = λ (i : Option ℕ).
        loop np least_squares (with_base np tol base_power) topology i
          (rounds ++ max_time ∷ later) in
      let after_check : Exec (Estimator F) (Unit {0}) =
        (λ (u : Estimator F). (slack_from 0 topology.ids topology.slack_bus none, u))
        >>= (λ i. enter i) in
      (
        k,
        end,
        qs,
        bind-ok (λ u. (check_admittance topology.admittance, u)) (λ _. after_check)
              (ap (λ r. (r, fresh)) checked)
            ∙ bind-ok (λ u. (slack_from 0 topology.ids topology.slack_bus none, u)) (λ i. enter i)
                (ap (λ r. (r, fresh)) found')
            ∙ looped,
        at,
        gone,
        all_published,
        pairs,
      )
