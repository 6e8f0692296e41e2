-- ===== src/Opf/Targeted.antt =====
-- Which equipment the federate sends commands to.
use sgidal_example.Prelude.{
  length, All, Dict, mem, All-of_mem, ◌<◌, String, ◌≡◌, sym, subst, Bool, true, false, List, [],
  ◌∷◌, ◌++◌, arith,
}
use sgidal_example.Prelude.Exec.{bind-keeps}
use sgidal_example.Floats.{Floats, Complex}
use sgidal_example.Adapter.Measurements.{pack_voltages}
use sgidal_example.Lindistflow.{ControlType}
use sgidal_example.Lindistflow.Program.{Program, Answer}
use sgidal_example.Opf.{
  Command, Inputs, Round, updated, granted, max_time, Publication, change_commands, opf_voltages,
  Federate, publish, publish_commands, publish_voltages, stop, optimised, publish_both, handle,
  loop, run,
}
use sgidal_example.Opf.Named.{equipment_of, equipment}
use sgidal_example.Opf.Commands.{IsAimed, All-append, All-split, optimised-IsAimed}

module _ {F : Floats} where
  -- What is published has at least one command where it is of commands, and each is aimed.
  abbrev pub IsTargeted : ControlType → List String → Publication F → Type 0
  IsTargeted control names (change_commands cs) = (0 < length cs) × All (IsAimed control names) cs
  IsTargeted control names (opf_voltages packed time) = Unit

  abbrev pub names_of : List (Round F) → List String
  names_of [] = []
  names_of (updated m ∷ rounds) = equipment m ++ names_of rounds
  names_of (granted ∷ rounds) = names_of rounds
  names_of (max_time ∷ rounds) = names_of rounds

module _ {F : Floats} (control : ControlType) (names : List String) where
  abbrev AllTargeted : Federate F → Type 0
  AllTargeted s = All (IsTargeted control names) s.published

  publish-AllTargeted :
      (p : Publication F) (s : Federate F)
      → IsTargeted control names p
      → AllTargeted s
      → AllTargeted (publish p s).1
  unfolding publish
  publish-AllTargeted p s h k = All-append (IsTargeted control names) s.published (p ∷ []) k (h, tt)

  publish_voltages-AllTargeted :
      (time : String) (voltages : Dict (Dict F.Float)) (s : Federate F)
      → AllTargeted s
      → AllTargeted (publish_voltages time voltages s).1
  unfolding publish_voltages
  publish_voltages-AllTargeted time voltages s h =
      bind-keeps AllTargeted (λ packed. publish (opf_voltages packed time))
        (λ u. (pack_voltages voltages, u)) s h
        (λ packed e. publish-AllTargeted (opf_voltages packed time) s tt h)

  publish_commands-AllTargeted :
      (cs : List (Command F)) (s : Federate F)
      → All (IsAimed control names) cs
      → AllTargeted s
      → AllTargeted (publish_commands cs s).1
  unfolding publish_commands
  publish_commands-AllTargeted [] s aimed h = h
  publish_commands-AllTargeted (c ∷ cs) s aimed h =
      publish-AllTargeted (change_commands (c ∷ cs)) s (omega arith, aimed) h

module _ {F : Floats} (neg_pinv : List (List (Complex F)) → List (List (Complex F)))
    (connected_components : List (String × String) → List (List String))
    (solver : Program F → Answer F) (control : ControlType) (pf_flag : Bool) where
  handle-AllTargeted :
      (names : List String) (m : Inputs F) (s : Federate F)
      → All (λ eq. mem eq names ≡ true) (equipment m)
      → AllTargeted control names s
      → AllTargeted control names
          (handle neg_pinv connected_components solver control pf_flag m s).1
  unfolding handle publish_both
  handle-AllTargeted names m s known h =
      let known_parts = All-split (λ eq. mem eq names ≡ true) (equipment_of m.real) _ known in
      bind-keeps (AllTargeted control names)
        (publish_both neg_pinv connected_components solver m.time)
        (λ u. (optimised neg_pinv connected_components solver control pf_flag m, u)) s h
        (λ found e.
          bind-keeps (AllTargeted control names) (λ _. publish_voltages m.time found.1)
            (publish_commands found.0) s
            (publish_commands-AllTargeted control names found.0 s
              (optimised-IsAimed neg_pinv connected_components solver control pf_flag names m found
                known_parts.0 known_parts.1 e)
              h)
            (λ _ e'. publish_voltages-AllTargeted control names m.time found.1 _ (
              publish_commands-AllTargeted control names found.0 s
                (optimised-IsAimed neg_pinv connected_components solver control pf_flag names m
                  found known_parts.0 known_parts.1 e)
                h)))

  loop-AllTargeted :
      (names : List String) (rounds : List (Round F)) (s : Federate F)
      → All (λ eq. mem eq names ≡ true) (names_of rounds)
      → AllTargeted control names s
      → AllTargeted control names
          (loop neg_pinv connected_components solver control pf_flag rounds s).1
  unfolding loop stop
  loop-AllTargeted names [] s known h = h
  loop-AllTargeted names (max_time ∷ rounds) s known h = h
  loop-AllTargeted names (granted ∷ rounds) s known h = loop-AllTargeted names rounds s known h
  loop-AllTargeted names (updated m ∷ rounds) s known h =
      let parts = All-split (λ eq. mem eq names ≡ true) (equipment m) _ known in
      let once = handle-AllTargeted names m s parts.0 h in
      bind-keeps (AllTargeted control names)
        (λ _. loop neg_pinv connected_components solver control pf_flag rounds)
        (handle neg_pinv connected_components solver control pf_flag m) s once
        (λ _ e. loop-AllTargeted names rounds _ parts.1 once)

  -- Whatever HELICS answers, and also where a round raises: every list of commands that is published
  -- has a command, and each of its commands is for an equipment that a message of the injection names
  -- as a PV system, sets the property of the control, and has a value that is not below 0.1.
  pub run-IsTargeted :
      (below : Bool) (rounds : List (Round F)) (s : Federate F)
      → s.published ≡ []
      → All
          (IsTargeted control (names_of rounds))
          (run neg_pinv connected_components solver control pf_flag below rounds s).1.published
  unfolding run stop
  run-IsTargeted below rounds s empty =
      let names = names_of rounds in
      let start : AllTargeted control names s =
        subst (All (IsTargeted control names)) (sym empty) tt in
      elim below
        as (λ b.
          AllTargeted control names
            (run neg_pinv connected_components solver control pf_flag b rounds s).1) [
              | true ↦ loop-AllTargeted names rounds s (All-of_mem names (λ x m. m)) start
              | false ↦ start
            ]
