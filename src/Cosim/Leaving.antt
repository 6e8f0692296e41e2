-- ===== src/Cosim/Leaving.antt =====
-- When the loop of `go_cosim` leaves HELICS.
use sgidal_example.Prelude.{
  ltb, Bool-cases, length, length-append, Result-cases, Result, ok, ℕ, ◌+◌, ◌≤◌, ◌≡◌, refl, sym, ap,
  ◌∙◌, subst, inl, inr, Bool, true, false, List, [], ◌∷◌, ◌++◌, arith,
}
use sgidal_example.Prelude.Exec.{lift, ensure, ◌>>=◌, ◌>>◌}
use sgidal_example.Floats.{Floats, Complex}
use sgidal_example.Feeder.Engine.{Engine, Coo}
use sgidal_example.Feeder.Pv.{get_available_pv}
use sgidal_example.Feeder.Voltages.{Labelled}
use sgidal_example.Cosim.{sparse_to_admittance_sparse}
use sgidal_example.Cosim.Current.{Arrays, CurrentData}
use sgidal_example.Cosim.Loop.{
  Round, Published, Cosim, with_sim, is_granted, request_next, take_time, checked_data,
  publish_sparse, publish_entries, publish_matrix, publish, log_first, publish_round, report,
  go_round, go_cosim,
}
use sgidal_example.Cosim.Balanced.{bind_step-ok, bind_step-raise, bind_step-inverse, go_round-Keeps}

module _ {F : Floats} where
  request_next-same :
      (granted_time : F.Float) (s : Cosim F)
      → ((request_next granted_time s).1.request_time ≤ s.request_time + 1)
        × ((request_next granted_time s).1.published ≡ s.published)
  unfolding request_next
  request_next-same granted_time s = (ground arith, refl)

  take_time-next :
      (granted_time : F.Float) (s : Cosim F)
      → (take_time granted_time s).0 ≡ ok tt
      → ((take_time granted_time s).1.request_time ≤ s.request_time + 1)
        × ((take_time granted_time s).1.published ≡ s.published)
  unfolding take_time
  take_time-next granted_time s h =
      let (_, _, step, _) =
        bind_step-inverse (ensure (is_granted granted_time)) (λ _. request_next granted_time) s tt
          h in
      subst
        (λ (p : Result (Unit {0}) × Cosim F).
          (p.1.request_time ≤ s.request_time + 1) × (p.1.published ≡ s.published))
        (sym step) (request_next-same granted_time s)

  publish_matrix-same :
      (use_sparse_admittance : Bool) (matrix : Coo (Complex F)) (s : Cosim F)
      → ((publish_matrix use_sparse_admittance matrix s).1.request_time ≡ s.request_time)
        × ((publish_matrix use_sparse_admittance matrix s).1.published ≡ s.published)
  unfolding publish_matrix publish_entries publish_sparse
  publish_matrix-same true matrix s =
      elim (Result-cases (sparse_to_admittance_sparse matrix s.sim.all_node_names)) [
        | inl (sparse, made) ↦ rw (made) (refl, refl)
        | inr (err, failed) ↦ rw (failed) (refl, refl)
      ]
  publish_matrix-same false matrix s = (refl, refl)

  module _ (e : Engine F) (arrays : Arrays F) (clock : F.Float → ℕ × ℕ)
      (use_sparse_admittance : Bool) (y : Coo (Complex F)) where
    publish_round-next :
        (round : Round F) (d : CurrentData F) (available : Labelled F.Float) (s : Cosim F)
        → let t = (publish_round e arrays clock use_sparse_admittance round d available s).1 in
          (t.request_time ≡ s.request_time) × (length t.published ≡ length s.published + 1)
    unfolding publish_round publish
    publish_round-next round d available s =
        let p : Published F = record {
          granted_time = round.granted_time;
          current_data = d;
          available_power = available;
        } in
        let (same, kept) =
          publish_matrix-same use_sparse_admittance d.load_y_matrix
            (record s { published = s.published ++ p ∷ [] }) in
        (same, ap length kept ∙ length-append s.published (p ∷ []))

    report-next :
        (round : Round F) (d : CurrentData F) (s : Cosim F)
        → (report e arrays clock use_sparse_admittance round d s).0 ≡ ok tt
        → let t = (report e arrays clock use_sparse_admittance round d s).1 in
          (t.request_time ≡ s.request_time) × (length t.published ≡ length s.published + 1)
    unfolding report
    report-next round d s h =
        let (_, _, step, rest) =
          bind_step-inverse (lift (log_first d))
            (λ _.
              with_sim (get_available_pv e)
              >>= publish_round e arrays clock use_sparse_admittance round d)
            s tt h in
        let (available, _, step', _) =
          bind_step-inverse (with_sim (get_available_pv e))
            (publish_round e arrays clock use_sparse_admittance round d) s tt rest in
        subst
          (λ (p : Result (Unit {0}) × Cosim F).
            (p.1.request_time ≡ s.request_time) × (length p.1.published ≡ length s.published + 1))
          (sym (step ∙ step')) (publish_round-next round d available _)

    -- A round that returns asks for one more step at most, and publishes once.
    go_round-next :
        (round : Round F) (s : Cosim F)
        → (go_round e arrays clock use_sparse_admittance y round s).0 ≡ ok tt
        → let t = (go_round e arrays clock use_sparse_admittance y round s).1 in
          (t.request_time ≤ s.request_time + 1) × (length t.published ≡ length s.published + 1)
    unfolding go_round
    go_round-next round s h =
        let solved =
          with_sim (checked_data e arrays clock y round)
          >>= report e arrays clock use_sparse_admittance round in
        let (_, taken, step, rest) =
          bind_step-inverse (take_time round.granted_time) (λ _. solved) s tt h in
        let (asked, before) = take_time-next round.granted_time s taken in
        let (d, _, step', rest') =
          bind_step-inverse (with_sim (checked_data e arrays clock y round))
            (report e arrays clock use_sparse_admittance round) _ tt rest in
        let (same, more) = report-next round d _ rest' in
        let counted = ap length before in
        subst
          (λ (p : Result (Unit {0}) × Cosim F).
            (p.1.request_time ≤ s.request_time + 1)
            × (length p.1.published ≡ length s.published + 1))
          (sym (step ∙ step')) (omega arith, omega arith)

    -- Whatever HELICS grants: when the federate has left HELICS it has published a round for each time
    -- step of the configuration at least, counted from where it started.
    pub go_cosim-leaves :
        (number_of_timesteps : ℕ) (rounds : List (Round F)) (s : Cosim F)
        → s.disconnected ≡ false
        → s.request_time ≤ length s.published
        → (go_cosim e arrays clock use_sparse_admittance y number_of_timesteps rounds
            s).1.disconnected
          ≡ true
        → number_of_timesteps
          ≤ length
              (go_cosim e arrays clock use_sparse_admittance y number_of_timesteps rounds
                s).1.published
    unfolding go_cosim
    go_cosim-leaves number_of_timesteps [] s stays counted left =
        elim (Bool-cases (ltb s.request_time number_of_timesteps)) [
          | inl more ↦ absurd (cc (stays, rw (more, go_cosim) at left))
          | inr done ↦ rw (done) (ground (arith, done, counted))
        ]
    go_cosim-leaves number_of_timesteps (round ∷ rounds) s stays counted left =
        let round_at = go_round e arrays clock use_sparse_admittance y round in
        let others = go_cosim e arrays clock use_sparse_admittance y number_of_timesteps rounds in
        let still = ((go_round-Keeps arrays e clock use_sparse_admittance y round).keeps s).0 in
        elim (Bool-cases (ltb s.request_time number_of_timesteps)) [
          | inl more ↦
              let left_later : ((round_at >> others) s).1.disconnected ≡ true =
                rw (more, go_cosim) at left in
              let goal : number_of_timesteps ≤ length ((round_at >> others) s).1.published =
                elim (Result-cases ((round_at s).0)) [
                  | inl (_, got) ↦
                      let step = bind_step-ok round_at (λ _. others) s tt got in
                      let (asked, published) = go_round-next round s got in
                      subst
                        (λ (p : Result (Unit {0}) × Cosim F).
                          number_of_timesteps ≤ length p.1.published)
                        (sym step)
                        (go_cosim-leaves number_of_timesteps rounds (round_at s).1 (still ∙ stays)
                          (omega arith)
                          (subst (λ (p : Result (Unit {0}) × Cosim F). p.1.disconnected ≡ true) step
                            left_later))
                  | inr (err, failed) ↦
                      let step = bind_step-raise round_at (λ _. others) s err failed in
                      let left_here =
                        subst (λ (p : Result (Unit {0}) × Cosim F). p.1.disconnected ≡ true) step
                          left_later in
                      absurd (cc (sym left_here ∙ still ∙ stays))
                ] in
              rw (more) goal
          | inr done ↦ rw (done) (ground (arith, done, counted))
        ]
