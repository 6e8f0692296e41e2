-- ===== src/Adapter/Numbered.antt =====
-- The numbers of buses and branches that `extract_info` gives.
use sgidal_example.Prelude.{
  ℕ, suc, ◌+◌, String, str_eq, ◌≡◌, refl, sym, ap, subst, ◌∙◌, inl, inr, true, ◌||◌, none, some,
  List, [], ◌∷◌, arith, ok, Dict, has_key, keys, mem, All, get_elem?, keys-update, eq_iff,
  Bool-cases, bind_ok, ok_injective,
}
use sgidal_example.Floats.{Floats, Complex}
use sgidal_example.Adapter.Info.{Bus, Branch, split_pair}
use sgidal_example.Adapter.Extract.{
  Admittance, Network, add_edges, index_buses, bus_idx, index_branches, index_info,
}
use sgidal_example.Adapter.Measurements.{extract_voltages, extract_info}
use sgidal_example.Adapter.Wired.{IsWired, Grows, Grows-AllWired, add_edges-AllWired}

module _ {F : Floats} where
  -- Base voltages change no bus's name.
  keys-extract_voltages :
      (rows : List (String × F.Float)) (old new : Dict (Bus F))
      → extract_voltages rows old ≡ ok new
      → keys new ≡ keys old
  unfolding extract_voltages
  keys-extract_voltages [] old new run = ap keys (sym (ok_injective run))
  keys-extract_voltages ((id, v) ∷ rest) old new run =
      let (parts, _, run_rest) = bind_ok (split_pair id) _ run in
      elim (Bool-cases (has_key parts.0 old)) [
        | inl known ↦
            keys-extract_voltages rest _ new (rw (known) at run_rest) ∙ keys-update parts.0 _ old
        | inr unknown ↦ keys-extract_voltages rest old new (rw (unknown) at run_rest)
      ]

  has_key-keys : (x : String) (d : Dict (Bus F)) → has_key x d ≡ mem x (keys d)
  has_key-keys x [] = refl
  has_key-keys x ((j, b) ∷ d) = ap (λ h. str_eq j x || h) (has_key-keys x d)

  keys-index_buses : (i : ℕ) (d : Dict (Bus F)) → keys (index_buses i d) ≡ keys d
  unfolding index_buses
  keys-index_buses i [] = refl
  keys-index_buses i ((j, b) ∷ d) = ap (λ ks. j ∷ ks) (keys-index_buses (suc i) d)

  -- The number of a bus is its place.
  bus_idx_place :
      (name : String) (i : ℕ) (d : Dict (Bus F))
      → has_key name d ≡ true
      → (k : ℕ) × (bus_idx name (index_buses i d) ≡ ok (i + k)) × (get_elem? (keys d) k ≡ some name)
  unfolding bus_idx index_buses
  bus_idx_place name i [] h = absurd (cc)
  bus_idx_place name i ((j, b) ∷ d) h = elim (Bool-cases (str_eq j name)) [
    | inl same ↦ (0, rw (same) (ap ok (omega arith)), ground (arith, eq_iff j name))
    | inr other ↦
        let (k, run, at) = bus_idx_place name (suc i) d (ground arith) in
        (suc k, rw (other) (run ∙ ap ok (omega arith)), at)
  ]

  bus_idx_first :
      (name : String) (d : Dict (Bus F))
      → has_key name d ≡ true
      → (k : ℕ) × (bus_idx name (index_buses 0 d) ≡ ok k) × (get_elem? (keys d) k ≡ some name)
  bus_idx_first name d h =
      let (k, run, at) = bus_idx_place name 0 d h in (k, run ∙ ap ok (omega arith), at)

  -- Branch `i` has the number `i`, and its ends have the places of its two names among the buses.
  abbrev pub AreNumbered : List String → ℕ → Dict (Branch F) → Type 0
  AreNumbered names i [] = Unit
  AreNumbered names i ((key, b) ∷ rest) =
      (b.idx ≡ some i)
      × ((k : ℕ) × (b.from_idx ≡ some k) × (get_elem? names k ≡ some b.fr_bus))
      × ((k : ℕ) × (b.to_idx ≡ some k) × (get_elem? names k ≡ some b.to_bus))
      × AreNumbered names (suc i) rest

  module _ (neg_pinv : List (List (Complex F)) → List (List (Complex F))) where
    index_branches-AreNumbered :
        (i : ℕ) (d : Dict (Branch F)) (buses : Dict (Bus F))
        → All (λ (p : String × Branch F). IsWired buses p.1) d
        → (bs : Dict (Branch F)) × (index_branches neg_pinv i d (index_buses 0 buses) ≡ ok bs)
          × AreNumbered (keys buses) i bs
    unfolding index_branches
    index_branches-AreNumbered i [] buses h = ([], refl, tt)
    index_branches-AreNumbered i ((key, b) ∷ d) buses ((from, to, (y, has_y)), rest) =
        let (k, run_from, at_from) = bus_idx_first b.fr_bus buses from in
        let (l, run_to, at_to) = bus_idx_first b.to_bus buses to in
        let (bs, run, numbered) = index_branches-AreNumbered (suc i) d buses rest in
        (
          (
            key,
            record b {
              idx = some i;
              from_idx = some k;
              to_idx = some l;
              y = none;
              zprim = neg_pinv y;
            },
          )
              ∷ bs,
          rw (run_from, run_to, has_y, run) refl,
          (refl, (k, refl, at_from), (l, refl, at_to), numbered),
        )

    -- Once the admittances and the base voltages are read, `extract_info` returns: no lookup of a bus
    -- fails, each branch has its place as its number, and its `from` and `to` are the places of its
    -- two buses among the buses of the result, which are those of the admittances.
    pub extract_info-AreNumbered :
        (rows : List (Admittance F)) (base : List (String × F.Float)) (read : Network F)
        (buses : Dict (Bus F))
        → add_edges rows (record { branch_info = []; bus_info = [] }) ≡ ok read
        → extract_voltages base read.bus_info ≡ ok buses
        → (n : Network F) × (extract_info neg_pinv rows base ≡ ok n)
          × (keys n.bus_info ≡ keys read.bus_info)
          × AreNumbered (keys n.bus_info) 0 n.branch_info
    unfolding extract_info index_info
    extract_info-AreNumbered rows base read buses run_rows run_base =
        let wired = add_edges-AllWired rows _ read tt run_rows in
        let same = keys-extract_voltages base read.bus_info buses run_base in
        let grow : Grows read.bus_info buses =
          λ x h. has_key-keys x buses ∙ ap (mem x) same ∙ sym (has_key-keys x read.bus_info) ∙ h in
        let (bs, run, numbered) =
          index_branches-AreNumbered 0 read.branch_info buses
            (Grows-AllWired read.bus_info buses read.branch_info grow wired) in
        (
          record { branch_info = bs; bus_info = index_buses 0 buses },
          rw (run_rows, run_base, run) refl,
          keys-index_buses 0 buses ∙ same,
          subst (λ names. AreNumbered names 0 bs) (sym (keys-index_buses 0 buses)) numbered,
        )
