-- ===== src/Cosim/Balanced.antt =====
-- What the rounds of `go_cosim` publish, and when the federate leaves.
use sgidal_example.Prelude.{
  ltb, ◌==◌, if◌then◌else◌, Bool-cases, length, All, Result-cases, ok_injective, Error, Result,
  value_error, ok, raise, ℕ, String, ◌≡◌, refl, sym, ap, ◌∙◌, subst, inl, inr, Bool, true, false,
  List, [], ◌∷◌, ◌++◌, arith,
}
use sgidal_example.Prelude.Exec.{Exec, lift, gets, ensure, ◌>>=◌, ◌>>◌}
use sgidal_example.Floats.{Floats, Complex}
use sgidal_example.Feeder.Engine.{Engine, Coo}
use sgidal_example.Feeder.Sim.{Sim}
use sgidal_example.Feeder.Pv.{get_available_pv}
use sgidal_example.Cosim.{sparse_to_admittance_sparse}
use sgidal_example.Cosim.Current.{Arrays, CurrentData, get_current_data, where_power_unbalanced}
use sgidal_example.Cosim.Loop.{
  Round, Published, Cosim, with_sim, is_granted, request_next, take_time, solve_round,
  check_balance, checked_data, publish_entries, publish_sparse, publish_matrix, publish, log_first,
  publish_round, report, go_round, go_cosim,
}

module _ {S A B : Type 0} (m : Exec S A) (f : A → Exec S B) (s : S) where
  pub bind_step-ok : (a : A) → (m s).0 ≡ ok a → (m >>= f) s ≡ f a (m s).1
  bind_step-ok a h = ap (λ (r : Result A). ((λ (u : S). (r, (m s).1)) >>= f) s) h

  pub bind_step-raise : (e : Error) → (m s).0 ≡ raise e → (m >>= f) s ≡ (raise e, (m s).1)
  bind_step-raise e h = ap (λ (r : Result A). ((λ (u : S). (r, (m s).1)) >>= f) s) h

  -- A sequence that returned: both steps did.
  pub bind_step-inverse :
      (b : B)
      → ((m >>= f) s).0 ≡ ok b
      → (a : A) × ((m s).0 ≡ ok a) × ((m >>= f) s ≡ f a (m s).1) × ((f a (m s).1).0 ≡ ok b)
  bind_step-inverse b h = elim (Result-cases ((m s).0)) [
    | inl (a, got) ↦
        let step = bind_step-ok a got in
        (a, got, step, ap (λ (p : Result B × S). p.0) (sym step) ∙ h)
    | inr (e, failed) ↦ absurd (cc (h, ap (λ (p : Result B × S). p.0) (bind_step-raise e failed)))
  ]

only_empty :
    {A : Type 0} (bad : List String) (d d' : A)
    → (if length bad == 0 then ok d else raise value_error) ≡ ok d'
    → (bad ≡ []) × (d ≡ d')
only_empty [] d d' h = (refl, ok_injective h)
only_empty (x ∷ bad) d d' h = absurd (ground (arith, h))

-- No bus is out of balance.
abbrev pub IsBalanced : {F : Floats} → Arrays F → Published F → Type 0
IsBalanced {F = F} arrays p =
    where_power_unbalanced arrays p.current_data.pq_injections_all p.current_data.calculated_power
      (F.from_ℕ 1)
    ≡ []

-- The federate stays, and what it publishes is balanced.
abbrev pub Safe : {F : Floats} → Arrays F → Cosim F → Cosim F → Type 0
Safe arrays s t =
    (t.disconnected ≡ s.disconnected)
    × (All (IsBalanced arrays) s.published → All (IsBalanced arrays) t.published)

pub record Keeps {F : Floats} (arrays : Arrays F) {A : Type 0} (m : Exec (Cosim F) A) : Type 0 where
  pub keeps : (s : Cosim F) → Safe arrays s (m s).1

module _ {F : Floats} (arrays : Arrays F) where
  Keeps-bind :
      {A B : Type 0} (m : Exec (Cosim F) A) (f : A → Exec (Cosim F) B)
      → Keeps arrays m
      → ((a : A) (s : Cosim F) → (m s).0 ≡ ok a → Keeps arrays (f a))
      → Keeps arrays (m >>= f)
  Keeps-bind {B = B} m f h h' = record {
    keeps = λ s. elim (Result-cases ((m s).0)) [
      | inl (a, got) ↦
          let first = h.keeps s in
          let then_f = (h' a s got).keeps (m s).1 in
          subst (λ (p : Result B × Cosim F). Safe arrays s p.1) (sym (bind_step-ok m f s a got))
            (then_f.0 ∙ first.0, λ all_before. then_f.1 (first.1 all_before))
      | inr (e, failed) ↦
          subst (λ (p : Result B × Cosim F). Safe arrays s p.1)
            (sym (bind_step-raise m f s e failed)) (h.keeps s)
    ];
  }

  take_time-Keeps : (granted_time : F.Float) → Keeps arrays (take_time {F = F} granted_time)
  unfolding take_time request_next
  take_time-Keeps granted_time =
      Keeps-bind (ensure (is_granted granted_time)) (λ _. request_next granted_time)
        (record { keeps = λ s. (refl, λ h. h) })
        (λ a s got. (record { keeps = λ s. (refl, λ h. h) }))

  publish_matrix-Keeps :
      (use_sparse_admittance : Bool) (matrix : Coo (Complex F))
      → Keeps arrays (publish_matrix {F = F} use_sparse_admittance matrix)
  unfolding publish_matrix publish_entries publish_sparse
  publish_matrix-Keeps true matrix =
      Keeps-bind (gets (λ s. s.sim.all_node_names)) (publish_entries matrix)
        (record { keeps = λ s. (refl, λ h. h) })
        (λ names s got.
          Keeps-bind (lift (sparse_to_admittance_sparse matrix names)) publish_sparse
            (record { keeps = λ s. (refl, λ h. h) })
            (λ a s got. (record { keeps = λ s. (refl, λ h. h) })))
  publish_matrix-Keeps false matrix = (record { keeps = λ s. (refl, λ h. h) })

  check_balance-IsBalanced :
      (d d' : CurrentData F)
      → check_balance arrays d ≡ ok d'
      → where_power_unbalanced arrays d'.pq_injections_all d'.calculated_power (F.from_ℕ 1) ≡ []
  unfolding check_balance
  check_balance-IsBalanced d d' h =
      let (none_bad, same) =
        only_empty
          (where_power_unbalanced arrays d.pq_injections_all d.calculated_power (F.from_ℕ 1)) d d'
          h in
      subst
        (λ (c : CurrentData F).
          where_power_unbalanced arrays c.pq_injections_all c.calculated_power (F.from_ℕ 1) ≡ [])
        same none_bad

  IsBalanced-last :
      (ps : List (Published F)) (p : Published F)
      → All (IsBalanced arrays) ps
      → IsBalanced arrays p
      → All (IsBalanced arrays) (ps ++ p ∷ [])
  IsBalanced-last [] p h balanced = (balanced, tt)
  IsBalanced-last (q ∷ ps) p h balanced = (h.0, IsBalanced-last ps p h.1 balanced)

  module _ (e : Engine F) (clock : F.Float → ℕ × ℕ) (use_sparse_admittance : Bool)
      (y : Coo (Complex F)) where
    -- The data that passes the check is balanced.
    checked_data-IsBalanced :
        (round : Round F) (s : Sim F) (d : CurrentData F)
        → (checked_data e arrays clock y round s).0 ≡ ok d
        → where_power_unbalanced arrays d.pq_injections_all d.calculated_power (F.from_ℕ 1) ≡ []
    unfolding checked_data
    checked_data-IsBalanced round s d h =
        let (_, _, _, rest) =
          bind_step-inverse (solve_round e arrays clock round)
            (λ _. get_current_data e arrays y >>= λ d. lift (check_balance arrays d)) s d h in
        let (found, _, _, passed) =
          bind_step-inverse (get_current_data e arrays y) (λ d. lift (check_balance arrays d)) _ d
            rest in
        check_balance-IsBalanced found d passed

    pub go_round-Keeps :
        (round : Round F) → Keeps arrays (go_round e arrays clock use_sparse_admittance y round)
    unfolding go_round report publish_round publish
    go_round-Keeps round =
        Keeps-bind (take_time round.granted_time)
          (λ _.
            with_sim (checked_data e arrays clock y round)
            >>= report e arrays clock use_sparse_admittance round)
          (take_time-Keeps round.granted_time)
          (λ _ _ _.
            Keeps-bind (with_sim (checked_data e arrays clock y round))
              (report e arrays clock use_sparse_admittance round)
              (record { keeps = λ s. (refl, λ h. h) })
              (λ d s got.
                let balanced = checked_data-IsBalanced round s.sim d got in
                Keeps-bind (lift (log_first d))
                  (λ _.
                    with_sim (get_available_pv e)
                    >>= publish_round e arrays clock use_sparse_admittance round d)
                  (record { keeps = λ s. (refl, λ h. h) })
                  (λ _ _ _.
                    Keeps-bind (with_sim (get_available_pv e))
                      (publish_round e arrays clock use_sparse_admittance round d)
                      (record { keeps = λ s. (refl, λ h. h) })
                      (λ available _ _.
                        let p : Published F = record {
                          granted_time = round.granted_time;
                          current_data = d;
                          available_power = available;
                        } in
                        Keeps-bind (publish p)
                          (λ _. publish_matrix use_sparse_admittance d.load_y_matrix)
                          (record {
                            keeps = λ s. (refl, λ h. IsBalanced-last s.published p h balanced);
                          })
                          (λ _ _ _. publish_matrix-Keeps use_sparse_admittance d.load_y_matrix)))))

    -- Whatever HELICS grants, and also where a round raises: what is published is in balance, every
    -- round of it, where it was so before.
    pub go_cosim-IsBalanced :
        (number_of_timesteps : ℕ) (rounds : List (Round F)) (s : Cosim F)
        → All (IsBalanced arrays) s.published
        → All
            (IsBalanced arrays)
            (go_cosim e arrays clock use_sparse_admittance y number_of_timesteps rounds
              s).1.published
    unfolding go_cosim
    go_cosim-IsBalanced number_of_timesteps [] s h =
        elim (Bool-cases (ltb s.request_time number_of_timesteps)) [
          | inl more ↦ rw (more) h
          | inr done ↦ rw (done) h
        ]
    go_cosim-IsBalanced number_of_timesteps (round ∷ rounds) s h =
        elim (Bool-cases (ltb s.request_time number_of_timesteps)) [
          | inl more ↦
              let round_at = go_round e arrays clock use_sparse_admittance y round in
              let others =
                go_cosim e arrays clock use_sparse_admittance y number_of_timesteps rounds in
              let kept = ((go_round-Keeps round).keeps s).1 h in
              let goal : All (IsBalanced arrays) ((round_at >> others) s).1.published =
                elim (Result-cases ((round_at s).0)) [
                  | inl (_, got) ↦
                      subst
                        (λ (p : Result (Unit {0}) × Cosim F). All (IsBalanced arrays) p.1.published)
                        (sym (bind_step-ok round_at (λ _. others) s tt got))
                        (go_cosim-IsBalanced number_of_timesteps rounds (round_at s).1 kept)
                  | inr (err, failed) ↦
                      subst
                        (λ (p : Result (Unit {0}) × Cosim F). All (IsBalanced arrays) p.1.published)
                        (sym (bind_step-raise round_at (λ _. others) s err failed)) kept
                ] in
              rw (more) goal
          | inr done ↦ rw (done) h
        ]
