-- ===== src/Feeder/Voltages/Placement.antt =====
-- Which voltage stands where in the array that the getters return.
use sgidal_example.Prelude.{
  ℕ, ◌<◌, String, ◌≡◌, ◌≢◌, sym, ap, ◌∙◌, ◌++◌, keys-insert_new, IsUnique-middle,
  lookup_of_mem-keys, inl, inr, false, some, List, [], ◌∷◌, arith, Result-cases, ok, Dict, insert,
  lookup, keys, mem, IsUnique, insert-IsUnique, length, get_elem?, set, get_elem?-set_self,
  get_elem?-set_ne, length-set, length-replicate, lt_of_get_elem?, replicate, eq_iff, str_eq,
  Bool-cases, Option-cases,
}
use mathlib.Core.List.{append-nil, append_assoc}
use sgidal_example.Floats.{Floats, Complex}
use sgidal_example.Indexing.{index_map}
use sgidal_example.Indexing.Lookup.{index_map_sound, index_map-get_elem?, mem_of_get_elem?}
use sgidal_example.Feeder.Engine.{Engine}
use sgidal_example.Feeder.Sim.{Sim}
use sgidal_example.Feeder.Voltages.{Labelled, pair_up, place, circuit_voltages, get_voltages}

-- Different names have different indexes.
abbrev pub IsInjective : Dict ℕ → Type 0
IsInjective index =
    (m n : String) (i : ℕ) → lookup m index ≡ some i → lookup n index ≡ some i → m ≡ n

index_map-IsInjective : (names : List String) → IsInjective (index_map names)
index_map-IsInjective names m n i p q =
    ground (arith, index_map_sound names m i p, index_map_sound names n i q)

module _ {A : Type 0} (index : Dict ℕ) (inj : IsInjective index) where
  place-other :
      (d : Dict A) (res r : List A) (n : String) (i : ℕ)
      → place d index res ≡ ok r
      → mem n (keys d) ≡ false
      → lookup n index ≡ some i
      → get_elem? r i ≡ get_elem? res i
  unfolding place
  place-other [] res r n i h new at = ap (λ xs. get_elem? xs i) (cc)
  place-other ((m, w) ∷ d) res r n i h new at = elim (Option-cases (lookup m index)) [
    | inl e ↦ absurd (cc)
    | inr (j, e) ↦
        let apart : j ≢ i = λ same. absurd (ground (arith, eq_iff m n, inj m n i)) in
        place-other d (set res j w) r n i (ground arith) (ground arith) at
        ∙ get_elem?-set_ne res w apart
  ]

  place-at :
      (d : Dict A) (res r : List A) (n : String) (v : A) (i : ℕ)
      → IsUnique (keys d)
      → place d index res ≡ ok r
      → lookup n d ≡ some v
      → lookup n index ≡ some i
      → i < length res
      → get_elem? r i ≡ some v
  unfolding place
  place-at [] res r n v i u h found at room = absurd (cc)
  place-at ((m, w) ∷ d) res r n v i u h found at room = elim (Option-cases (lookup m index)) [
    | inl e ↦ absurd (cc)
    | inr (j, e) ↦ elim (Bool-cases (str_eq m n)) [
      | inl same ↦
          let eq = (eq_iff m n).0 same in
          place-other d (set res j w) r n i (ground arith) (rw eq at u.0) at
          ∙ (ground (arith, get_elem?-set_self res i w room))
      | inr other ↦
          place-at d (set res j w) r n v i u.1 (ground arith) (ground arith) at
            (rw (length-set res j w) room)
    ]
  ]

pair_up-IsUnique :
    {A : Type 0} (names : List String) (parts : List A) (d r : Dict (A × A))
    → IsUnique (keys d)
    → pair_up names parts d ≡ ok r
    → IsUnique (keys r)
unfolding pair_up
pair_up-IsUnique [] parts d r u h = let same : d ≡ r = cc in rw same at u
pair_up-IsUnique (name ∷ names) [] d r u h = absurd (cc)
pair_up-IsUnique (name ∷ names) (re ∷ []) d r u h = absurd (cc)
pair_up-IsUnique (name ∷ names) (re ∷ im ∷ parts) d r u h =
    pair_up-IsUnique names parts (insert name (re, im) d) r (insert-IsUnique name (re, im) d u) h

pair_up-keys :
    {A : Type 0} (names : List String) (parts : List A) (d r : Dict (A × A))
    → IsUnique (keys d ++ names)
    → pair_up names parts d ≡ ok r
    → keys r ≡ keys d ++ names
unfolding pair_up
pair_up-keys [] parts d r u h = let same : r ≡ d = cc in rw (same, append-nil)
pair_up-keys (name ∷ names) [] d r u h = absurd (cc)
pair_up-keys (name ∷ names) (re ∷ []) d r u h = absurd (cc)
pair_up-keys (name ∷ names) (re ∷ im ∷ parts) d r u h =
    let at_end = keys-insert_new name (re, im) d (IsUnique-middle (keys d) name names u) in
    let regroup = ap (λ ks. ks ++ names) at_end ∙ append_assoc (keys d) (name ∷ []) names in
    pair_up-keys names parts (insert name (re, im) d) r (rw regroup u) h ∙ regroup

module _ {F : Floats} (e : Engine F) (s : Sim F) (d : Dict (Complex F)) (r : Labelled (Complex F))
    (u : IsUnique s.all_node_names) (indexed : s.name_index_dict ≡ index_map s.all_node_names)
    (held : circuit_voltages e s ≡ ok d) (got : (get_voltages e s).0 ≡ ok r) where
  abbrev zeros : List (Complex F)
  zeros = replicate (length s.all_node_names) (F.from_ℕ 0, F.from_ℕ 0)

  placed : (place d s.name_index_dict zeros ≡ ok r.values) × (r.ids ≡ keys d)
  unfolding get_voltages
  placed = elim (Result-cases (place d s.name_index_dict zeros)) [
    | inl (res, e) ↦ ground arith
    | inr (er, e) ↦ absurd (ground arith)
  ]

  unique : IsUnique (keys d)
  unfolding circuit_voltages
  unique = pair_up-IsUnique (e.y_node_order s.history) (e.y_node_v_array s.history) [] d tt held

  -- The value at the position of a node in `_AllNodeNames` is the voltage that OpenDSS holds for that
  -- node; the labels are the names in the order that OpenDSS has at this moment.
  pub get_voltages-positions :
      (i : ℕ) (n : String) (v : Complex F)
      → get_elem? s.all_node_names i ≡ some n
      → lookup n d ≡ some v
      → (get_elem? r.values i ≡ some v) × (r.ids ≡ keys d)
  get_voltages-positions i n v at found =
      let index = index_map-get_elem? s.all_node_names i n u at in
      (
        place-at s.name_index_dict (rw indexed (index_map-IsInjective s.all_node_names)) d zeros
            r.values n v i unique placed.0 found (rw (indexed, index))
            (rw
              (length-replicate {A = Complex F} (length s.all_node_names) (F.from_ℕ 0, F.from_ℕ 0))
              (lt_of_get_elem? s.all_node_names i n at)),
        placed.1,
      )

  -- Where that order is the order of `_AllNodeNames`, each label carries its own voltage.
  pub get_voltages-labels :
      (i : ℕ) (n : String)
      → e.y_node_order s.history ≡ s.all_node_names
      → get_elem? r.ids i ≡ some n
      → get_elem? r.values i ≡ lookup n d
  unfolding circuit_voltages
  get_voltages-labels i n order at =
      let names : keys d ≡ e.y_node_order s.history =
        pair_up-keys (e.y_node_order s.history) (e.y_node_v_array s.history) [] d (rw order u)
          held in
      let (v, found) = lookup_of_mem-keys n d (rw (← placed.1) (mem_of_get_elem? r.ids i n at)) in
      (get_voltages-positions i n v (ground (arith, placed.1)) found).0 ∙ sym found
