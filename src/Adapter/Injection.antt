-- ===== src/Adapter/Injection.antt =====
-- Set points for the buses: `extract_powers` against `extract_injection`.
use sgidal_example.Prelude.{
  if◌then◌else◌, Bool-cases, All, Result-cases, bind_ok, ok_injective, Result, contains, Dict,
  has_key, keys, mem, keys-update, ok, String, ◌≡◌, refl, sym, ap, ◌∙◌, subst, inl, inr, true,
  false, ◌||◌, List, [], ◌∷◌, arith, str_eq, eq_iff, ℕ, update, ◌>>=◌,
}
use sgidal_example.Floats.{Floats}
use sgidal_example.Adapter.Info.{Bus, split_pair, phase_index}
use sgidal_example.Adapter.Measurements.{
  Power, Setter, powers_real, powers_imag, extract_powers_real, extract_powers_imag, extract_powers,
  injection_real, injection_imag, extract_injection_real, extract_injection_imag, extract_injection,
}

-- No name of a bus holds the mark of an open switch.
abbrev pub AreClosed : List String → Type 0
AreClosed names = All (λ name. contains name "OPEN" ≡ false) names

closed_of_mem :
    (x : String) (names : List String)
    → AreClosed names
    → mem x names ≡ true
    → contains x "OPEN" ≡ false
closed_of_mem x [] h m = absurd (cc)
closed_of_mem x (y ∷ ys) h m = elim (Bool-cases (str_eq y x)) [
  | inl same ↦ subst (λ n. contains n "OPEN" ≡ false) ((eq_iff y x).0 same) h.0
  | inr other ↦ closed_of_mem x ys h.1 (ground arith)
]

module _ {F : Floats} where
  has_key-keys : (x : String) (d : Dict (Bus F)) → has_key x d ≡ mem x (keys d)
  has_key-keys x [] = refl
  has_key-keys x ((j, b) ∷ d) = ap (λ h. str_eq j x || h) (has_key-keys x d)

  -- The body of a loop after the name of the bus is known to be one of the buses.
  abbrev put : Setter F → String → String → String → F.Float → Dict (Bus F) → Result (Dict (Bus F))
  put set name phase eq p buses = split_pair eq >>= λ kind.
      phase_index 3 phase >>= λ i. ok (update name (set kind.0 eq i p) buses)

  keys-put :
      (set : Setter F) (name phase eq : String) (p : F.Float) (old new : Dict (Bus F))
      → put set name phase eq p old ≡ ok new
      → keys new ≡ keys old
  keys-put set name phase eq p old new run =
      let (kind, _, run_index) = bind_ok (split_pair eq) _ run in
      let (i, _, done) = bind_ok (phase_index 3 phase) _ run_index in
      ap keys (sym (ok_injective done)) ∙ keys-update name _ old

  -- The body of a loop of `extract_powers`, after its first line.
  abbrev row : Setter F → String → String → String → F.Float → Dict (Bus F) → Result (Dict (Bus F))
  row set name phase eq p buses =
      if has_key name buses then put set name phase eq p buses else ok buses

  keys-row :
      (set : Setter F) (name phase eq : String) (p : F.Float) (old new : Dict (Bus F))
      → row set name phase eq p old ≡ ok new
      → keys new ≡ keys old
  keys-row set name phase eq p old new run = elim (Bool-cases (has_key name old)) [
    | inl known ↦ keys-put set name phase eq p old new (rw (known) at run)
    | inr unknown ↦ ap keys (sym (ok_injective (rw (unknown) at run)))
  ]

  -- The body of a loop of `extract_injection` does the same where the two setters do.
  guarded-row :
      (set other : Setter F)
      → ((kind eq : String) (i : ℕ) (p : F.Float) (b : Bus F)
          → set kind eq i p b ≡ other kind eq i p b)
      → (name phase eq : String) (p : F.Float) (buses : Dict (Bus F)) → AreClosed (keys buses)
      → (if has_key name buses
          then (if contains name "OPEN" then ok buses else put set name phase eq p buses)
          else ok buses)
        ≡ row other name phase eq p buses
  guarded-row set other same name phase eq p buses h = elim (Bool-cases (has_key name buses)) [
    | inl known ↦
        let closed = closed_of_mem name (keys buses) h (sym (has_key-keys name buses) ∙ known) in
        rw (known, closed)
          (ap (λ (f : Setter F). put f name phase eq p buses)
            (λ j kind eq i p b. same kind eq i p b j))
    | inr unknown ↦ rw (unknown) refl
  ]

  injection_real-eq :
      (kind eq : String) (i : ℕ) (p : F.Float) (b : Bus F)
      → injection_real kind eq i p b ≡ powers_real kind eq i p b
  unfolding injection_real powers_real
  injection_real-eq kind eq i p b = refl

  injection_imag-eq :
      (kind eq : String) (i : ℕ) (p : F.Float) (b : Bus F)
      → injection_imag kind eq i p b ≡ powers_imag kind eq i p b
  unfolding injection_imag powers_imag
  injection_imag-eq kind eq i p b = refl

  keys-extract_powers_real :
      (rows : List (Power F)) (old new : Dict (Bus F))
      → extract_powers_real rows old ≡ ok new
      → keys new ≡ keys old
  unfolding extract_powers_real
  keys-extract_powers_real [] old new run = ap keys (sym (ok_injective run))
  keys-extract_powers_real ((id, eq, p) ∷ rest) old new run =
      let (parts, _, run_row) = bind_ok (split_pair id) _ run in
      let (next, done, run_rest) = bind_ok (row powers_real parts.0 parts.1 eq p old) _ run_row in
      keys-extract_powers_real rest next new run_rest
      ∙ keys-row powers_real parts.0 parts.1 eq p old next done

  extract_injection_real-eq :
      (rows : List (Power F)) (buses : Dict (Bus F))
      → AreClosed (keys buses)
      → extract_injection_real rows buses ≡ extract_powers_real rows buses
  unfolding extract_injection_real extract_powers_real
  extract_injection_real-eq [] buses h = refl
  extract_injection_real-eq ((id, eq, p) ∷ rest) buses h = elim (Result-cases (split_pair id)) [
    | inr (e, failed) ↦ rw (failed) refl
    | inl (parts, read) ↦
        rw
          (
            read,
            guarded-row injection_real powers_real injection_real-eq parts.0 parts.1 eq p buses h,
          )
          (elim (Result-cases (row powers_real parts.0 parts.1 eq p buses)) [
            | inr (e, failed) ↦ rw (failed) refl
            | inl (next, done) ↦ rw (done) (
                extract_injection_real-eq rest next (
                  subst AreClosed (sym (keys-row powers_real parts.0 parts.1 eq p buses next done))
                    h))
          ])
  ]

  extract_injection_imag-eq :
      (rows : List (Power F)) (buses : Dict (Bus F))
      → AreClosed (keys buses)
      → extract_injection_imag rows buses ≡ extract_powers_imag rows buses
  unfolding extract_injection_imag extract_powers_imag
  extract_injection_imag-eq [] buses h = refl
  extract_injection_imag-eq ((id, eq, p) ∷ rest) buses h = elim (Result-cases (split_pair id)) [
    | inr (e, failed) ↦ rw (failed) refl
    | inl (parts, read) ↦
        rw
          (
            read,
            guarded-row injection_imag powers_imag injection_imag-eq parts.0 parts.1 eq p buses h,
          )
          (elim (Result-cases (row powers_imag parts.0 parts.1 eq p buses)) [
            | inr (e, failed) ↦ rw (failed) refl
            | inl (next, done) ↦ rw (done) (
                extract_injection_imag-eq rest next (
                  subst AreClosed (sym (keys-row powers_imag parts.0 parts.1 eq p buses next done))
                    h))
          ])
  ]

  -- Where no name of a bus holds "OPEN", `extract_injection` does what `extract_powers` does with
  -- the two parts of the injection, errors included.
  pub extract_injection-extract_powers :
      (real imag : List (Power F)) (buses : Dict (Bus F))
      → AreClosed (keys buses)
      → extract_injection real imag buses ≡ extract_powers real imag buses
  unfolding extract_injection extract_powers
  extract_injection-extract_powers real imag buses h =
      rw (extract_injection_real-eq real buses h)
        (elim (Result-cases (extract_powers_real real buses)) [
          | inr (e, failed) ↦ rw (failed) refl
          | inl (next, done) ↦ rw (done) (
              extract_injection_imag-eq imag next
                (subst AreClosed (sym (keys-extract_powers_real real buses next done)) h))
        ])
