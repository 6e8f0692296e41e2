-- ===== src/Area/Numbered.antt =====
-- The buses and branches of the area, and their numbers.
use sgidal_example.Prelude.{
  if◌then◌else◌, Bool-cases, length, All, length-map, Dict, insert, keys, mem, IsUnique,
  mem-keys-insert, keys-insert_new, ok, ℕ, suc, ◌+◌, String, ◌≡◌, refl, sym, ap, ◌∙◌, inl, inr,
  true, false, ◌&&◌, some, List, [], ◌∷◌, ◌++◌, arith, str_eq, eq_iff,
}
use mathlib.Core.List.{append-nil, append_assoc}
use sgidal_example.Floats.{Floats}
use sgidal_example.Adapter.Info.{Bus}
use sgidal_example.Area.{AreaBus, triple, scale, primary_kv_level, primary_bus, primary_buses}

pub triple_total {ℓ} :
    {A : Type ℓ} (xs : List A) → length xs ≡ 3 → (t : A × A × A) × (triple xs ≡ ok t)
unfolding triple
triple_total [] h = absurd (omega arith)
triple_total (a ∷ []) h = absurd (omega arith)
triple_total (a ∷ b ∷ []) h = absurd (omega arith)
triple_total (a ∷ b ∷ c ∷ rest) h = ((a, b, c), refl)

module _ {F : Floats} where
  -- Three pairs for the loads, and three for the generators.
  abbrev pub IsThreePhase : String × Bus F → Type 0
  IsThreePhase p = (length p.1.pv ≡ 3) × (length p.1.pq ≡ 3)

  -- The names of the area's buses above the level.
  abbrev pub primary_names : List String → Dict (Bus F) → List String
  primary_names area [] = []
  primary_names area ((key, b) ∷ rest) =
      let names = primary_names area rest in
      if mem key area && F.lt (primary_kv_level F) b.kv then key ∷ names else names

  module _ (area : List String) (key : String) (b : Bus F) (d : Dict (Bus F)) where
    primary_names_taken :
        (mem key area && F.lt (primary_kv_level F) b.kv) ≡ true
        → primary_names area ((key, b) ∷ d) ≡ key ∷ primary_names area d
    primary_names_taken taken = rw (taken) refl

    primary_names_left :
        (mem key area && F.lt (primary_kv_level F) b.kv) ≡ false
        → primary_names area ((key, b) ∷ d) ≡ primary_names area d
    primary_names_left left = rw (left) refl

  -- Row `i` has the number `i`.
  abbrev pub AreCounted : ℕ → Dict (AreaBus F) → Type 0
  AreCounted i [] = Unit
  AreCounted i ((key, row) ∷ rest) = (row.idx ≡ i) × AreCounted (suc i) rest

  insert-AreCounted :
      (key : String) (row : AreaBus F) (i : ℕ) (d : Dict (AreaBus F))
      → mem key (keys d) ≡ false
      → row.idx ≡ i + length d
      → AreCounted i d
      → AreCounted i (insert key row d)
  insert-AreCounted key row i [] new e h = (omega arith, tt)
  insert-AreCounted key row i ((j, r) ∷ d) new e h =
      let other : str_eq j key ≡ false = ground arith in
      rw (other) (h.0, insert-AreCounted key row (suc i) d (ground arith) (omega arith) h.1)

  length-insert_new :
      (key : String) (row : AreaBus F) (d : Dict (AreaBus F))
      → mem key (keys d) ≡ false
      → length (insert key row d) ≡ suc (length d)
  length-insert_new key row [] new = refl
  length-insert_new key row ((j, r) ∷ d) new = ground (arith, length-insert_new key row d)

  primary_bus_total :
      (idx : ℕ) (p : String × Bus F)
      → IsThreePhase p
      → (row : AreaBus F) × (primary_bus idx p.1 ≡ ok row) × (row.idx ≡ idx)
  unfolding primary_bus
  primary_bus_total idx p h =
      let (pv, run_pv) = triple_total p.1.pv h.0 in
      let (pq, run_pq) = triple_total (scale F (F.from_ℕ 1) p.1.pq) (length-map _ p.1.pq ∙ h.1) in
      (
        record {
          idx = idx;
          phases = p.1.phases;
          kv = p.1.kv;
          s_rated = F.plus (F.plus pv.0.0 pv.1.0) pv.2.0;
          pv = scale F (F.from_ℕ 1) p.1.pv;
          pq = scale F (F.from_ℕ 1) p.1.pq;
        },
        rw (run_pv, run_pq) refl,
        refl,
      )

  module _ (area : List String) (idx : ℕ) (key : String) (b : Bus F) (d : Dict (Bus F))
      (acc : Dict (AreaBus F)) where
    primary_buses_taken :
        (row : AreaBus F)
        → (mem key area && F.lt (primary_kv_level F) b.kv) ≡ true
        → primary_bus idx b ≡ ok row
        → primary_buses (some area) idx ((key, b) ∷ d) acc
          ≡ primary_buses (some area) (suc idx) d (insert key row acc)
    unfolding primary_buses
    primary_buses_taken row taken made = ground arith

    primary_buses_left :
        (mem key area && F.lt (primary_kv_level F) b.kv) ≡ false
        → primary_buses (some area) idx ((key, b) ∷ d) acc ≡ primary_buses (some area) idx d acc
    unfolding primary_buses
    primary_buses_left left = ground arith

  pub primary_buses_total :
      (area : List String) (d : Dict (Bus F)) (acc : Dict (AreaBus F))
      → All IsThreePhase d
      → IsUnique (keys d)
      → ((x : String) → mem x (keys d) ≡ true → mem x (keys acc) ≡ false)
      → AreCounted 0 acc
      → (buses : Dict (AreaBus F)) × (primary_buses (some area) (length acc) d acc ≡ ok buses)
        × (keys buses ≡ keys acc ++ primary_names area d)
        × AreCounted 0 buses
  unfolding primary_buses
  primary_buses_total area [] acc three unique new counted =
      (acc, refl, sym (append-nil (keys acc)), counted)
  primary_buses_total area ((key, b) ∷ d) acc (t, three) (once, unique) new counted =
      elim (Bool-cases (mem key area && F.lt (primary_kv_level F) b.kv)) [
        | inr left ↦
            let (buses, run, names, c) =
              primary_buses_total area d acc three unique (λ x m. new x (ground arith)) counted in
            (
              buses,
              primary_buses_left area (length acc) key b d acc left ∙ run,
              names ∙ ap (λ ks. keys acc ++ ks) (sym (primary_names_left area key b d left)),
              c,
            )
        | inl taken ↦
            let (row, made, e) = primary_bus_total (length acc) (key, b) t in
            let fresh = new key (ground (arith, eq_iff key key)) in
            let (buses, run, names, c) =
              primary_buses_total area d (insert key row acc) three unique
                (λ x m.
                  ground (arith, new x, mem-keys-insert x key row acc, eq_iff key x, eq_iff x key))
                (insert-AreCounted key row 0 acc fresh (omega arith) counted) in
            (
              buses,
              primary_buses_taken area (length acc) key b d acc row taken made
                  ∙ ap (λ n. primary_buses (some area) n d (insert key row acc))
                      (sym (length-insert_new key row acc fresh))
                  ∙ run,
              names
                  ∙ ap (λ ks. ks ++ primary_names area d) (keys-insert_new key row acc fresh)
                  ∙ append_assoc (keys acc) (key ∷ []) (primary_names area d)
                  ∙ ap (λ ks. keys acc ++ ks) (sym (primary_names_taken area key b d taken)),
              c,
            )
      ]
