-- ===== src/Opf/Named.antt =====
-- The equipment of a bus comes from the messages of the injection.
use sgidal_example.Prelude.{
  if◌then◌else◌, Bool-cases, All, bind_ok, ok_injective, Result, contains, Dict, has_key, mem,
  update, ok, ℕ, String, ◌≡◌, subst, inl, inr, true, some, List, [], ◌∷◌, ◌++◌, str_eq, ◌>>=◌,
}
use sgidal_example.Floats.{Floats}
use sgidal_example.Adapter.Info.{Bus, split_pair, phase_index}
use sgidal_example.Adapter.Measurements.{
  Power, Setter, injection_real, injection_imag, extract_voltages, extract_injection_real,
  extract_injection_imag, extract_injection,
}
use sgidal_example.Area.{AreaBus}
use sgidal_example.Opf.{Inputs, as_bus, as_buses, measured_buses}

abbrev pub equipment_of : {A : Type 0} → List (String × String × A) → List String
equipment_of [] = []
equipment_of ((id, eq, power) ∷ rest) = eq ∷ equipment_of rest

module _ {F : Floats} where
  abbrev pub equipment : Inputs F → List String
  equipment m = equipment_of m.real ++ equipment_of m.imag

  -- The equipment of the bus, where it has any, is one of these names.
  pub record IsNamed (names : List String) (b : Bus F) : Type 0 where
    pub name : (eqid : String) → b.eqid ≡ some eqid → mem eqid names ≡ true

  abbrev pub AreNamed : List String → Dict (Bus F) → Type 0
  AreNamed names buses = All (λ (p : String × Bus F). IsNamed names p.1) buses

  AreNamed-update :
      (names : List String) (key : String) (f : Bus F → Bus F)
      → ((b : Bus F) → IsNamed names b → IsNamed names (f b))
      → (buses : Dict (Bus F)) → AreNamed names buses
      → AreNamed names (update key f buses)
  AreNamed-update names key f k [] h = tt
  AreNamed-update names key f k ((j, b) ∷ rest) h = elim (Bool-cases (str_eq j key)) [
    | inl same ↦ rw same (k b h.0, h.1)
    | inr other ↦ rw other (h.0, AreNamed-update names key f k rest h.1)
  ]

  pub as_buses-AreNamed :
      (names : List String) (rows : Dict (AreaBus F)) → AreNamed names (as_buses rows)
  unfolding as_buses as_bus
  as_buses-AreNamed names [] = tt
  as_buses-AreNamed names ((key, a) ∷ rest) =
      (record { name = λ eqid h. absurd (cc) }, as_buses-AreNamed names rest)

  extract_voltages-AreNamed :
      (names : List String) (vs : List (String × F.Float)) (old new : Dict (Bus F))
      → extract_voltages vs old ≡ ok new
      → AreNamed names old
      → AreNamed names new
  unfolding extract_voltages
  extract_voltages-AreNamed names [] old new run h = subst (AreNamed names) (ok_injective run) h
  extract_voltages-AreNamed names ((id, v) ∷ vs) old new run h =
      let (parts, _, rest) = bind_ok (split_pair id) _ run in
      elim (Bool-cases (has_key parts.0 old)) [
        | inl known ↦
            extract_voltages-AreNamed names vs
              (update parts.0 (λ b. record b { kv = F.over v (F.from_ℕ 1000) }) old) new
              (rw known at rest)
              (AreNamed-update names parts.0 _ (λ b k. record { name = k.name }) old h)
        | inr unknown ↦ extract_voltages-AreNamed names vs old new (rw unknown at rest) h
      ]

  injection_real-IsNamed :
      (names : List String) (kind eq : String) (i : ℕ) (p : F.Float) (b : Bus F)
      → mem eq names ≡ true
      → IsNamed names (injection_real kind eq i p b)
  unfolding injection_real
  injection_real-IsNamed names kind eq i p b there = elim (Bool-cases (str_eq kind "PVSystem")) [
    | inl pv ↦ rw pv (record { name = λ eqid h. subst (λ n. mem n names ≡ true) (cc) there })
    | inr load ↦ rw load (record { name = λ eqid h. subst (λ n. mem n names ≡ true) (cc) there })
  ]

  injection_imag-IsNamed :
      (names : List String) (kind eq : String) (i : ℕ) (p : F.Float) (b : Bus F)
      → mem eq names ≡ true
      → IsNamed names (injection_imag kind eq i p b)
  unfolding injection_imag
  injection_imag-IsNamed names kind eq i p b there = elim (Bool-cases (str_eq kind "PVSystem")) [
    | inl pv ↦ rw pv (record { name = λ eqid h. subst (λ n. mem n names ≡ true) (cc) there })
    | inr load ↦ rw load (record { name = λ eqid h. subst (λ n. mem n names ≡ true) (cc) there })
  ]

  -- The body of a loop of `extract_injection`, after its first line.
  abbrev put : Setter F → String → F.Float → Dict (Bus F) → String → String → Result (Dict (Bus F))
  put set eq p old name phase = split_pair eq >>= λ kind.
      phase_index 3 phase >>= λ i. ok (update name (set kind.0 eq i p) old)

  abbrev row_of :
      Setter F → String → F.Float → Dict (Bus F) → String → String → Result (Dict (Bus F))
  row_of set eq p old name phase =
      if has_key name old
      then (if contains name "OPEN" then ok old else put set eq p old name phase)
      else ok old

  put-AreNamed :
      (names : List String) (set : Setter F) (eq : String) (p : F.Float)
      → ((kind : String) (i : ℕ) (b : Bus F) → IsNamed names (set kind eq i p b))
      → (name phase : String) (old new : Dict (Bus F)) → put set eq p old name phase ≡ ok new
      → AreNamed names old
      → AreNamed names new
  put-AreNamed names set eq p good name phase old new run h =
      let (kind, _, run_index) = bind_ok (split_pair eq) _ run in
      let (i, _, done) = bind_ok (phase_index 3 phase) _ run_index in
      subst (AreNamed names) (ok_injective done)
        (AreNamed-update names name (set kind.0 eq i p) (λ b k. good kind.0 i b) old h)

  row_of-AreNamed :
      (names : List String) (set : Setter F) (eq : String) (p : F.Float)
      → ((kind : String) (i : ℕ) (b : Bus F) → IsNamed names (set kind eq i p b))
      → (name phase : String) (old next : Dict (Bus F)) → AreNamed names old
      → row_of set eq p old name phase ≡ ok next
      → AreNamed names next
  row_of-AreNamed names set eq p good name phase old next h row =
      elim (Bool-cases (has_key name old)) [
        | inl known ↦ elim (Bool-cases (contains name "OPEN")) [
          | inl marked ↦ subst (AreNamed names) (ok_injective (rw (known, marked) at row)) h
          | inr shut ↦
              put-AreNamed names set eq p good name phase old next (rw (known, shut) at row) h
        ]
        | inr unknown ↦ subst (AreNamed names) (ok_injective (rw unknown at row)) h
      ]

  extract_injection_real-AreNamed :
      (names : List String) (rows : List (Power F)) (old new : Dict (Bus F))
      → All (λ eq. mem eq names ≡ true) (equipment_of rows)
      → extract_injection_real rows old ≡ ok new
      → AreNamed names old
      → AreNamed names new
  unfolding extract_injection_real
  extract_injection_real-AreNamed names [] old new there run h =
      subst (AreNamed names) (ok_injective run) h
  extract_injection_real-AreNamed names ((id, eq, p) ∷ rows) old new there run h =
      let (parts, _, after) = bind_ok (split_pair id) _ run in
      let (next, row, rest) =
        bind_ok (row_of injection_real eq p old parts.0 parts.1)
          (λ next. extract_injection_real rows next) after in
      extract_injection_real-AreNamed names rows next new there.1 rest (
        row_of-AreNamed names injection_real eq p
          (λ kind i b. injection_real-IsNamed names kind eq i p b there.0) parts.0 parts.1 old next
          h row)

  extract_injection_imag-AreNamed :
      (names : List String) (rows : List (Power F)) (old new : Dict (Bus F))
      → All (λ eq. mem eq names ≡ true) (equipment_of rows)
      → extract_injection_imag rows old ≡ ok new
      → AreNamed names old
      → AreNamed names new
  unfolding extract_injection_imag
  extract_injection_imag-AreNamed names [] old new there run h =
      subst (AreNamed names) (ok_injective run) h
  extract_injection_imag-AreNamed names ((id, eq, p) ∷ rows) old new there run h =
      let (parts, _, after) = bind_ok (split_pair id) _ run in
      let (next, row, rest) =
        bind_ok (row_of injection_imag eq p old parts.0 parts.1)
          (λ next. extract_injection_imag rows next) after in
      extract_injection_imag-AreNamed names rows next new there.1 rest (
        row_of-AreNamed names injection_imag eq p
          (λ kind i b. injection_imag-IsNamed names kind eq i p b there.0) parts.0 parts.1 old next
          h row)

  -- Once the messages are read, every bus of the area with equipment has it from the injection.
  pub measured_buses-AreNamed :
      (names : List String) (m : Inputs F) (rows : Dict (AreaBus F)) (buses : Dict (Bus F))
      → All (λ eq. mem eq names ≡ true) (equipment_of m.real)
      → All (λ eq. mem eq names ≡ true) (equipment_of m.imag)
      → measured_buses m rows ≡ ok buses
      → AreNamed names buses
  unfolding measured_buses extract_injection
  measured_buses-AreNamed names m rows buses real imag run =
      let (seen, voltages, after) = bind_ok (extract_voltages m.voltages (as_buses rows)) _ run in
      let (next, first, second) =
        bind_ok (extract_injection_real m.real seen) (λ next. extract_injection_imag m.imag next)
          after in
      extract_injection_imag-AreNamed names m.imag next buses imag second (
        extract_injection_real-AreNamed names m.real seen next real first (
          extract_voltages-AreNamed names m.voltages (as_buses rows) seen voltages
            (as_buses-AreNamed names rows)))
