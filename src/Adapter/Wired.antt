-- ===== src/Adapter/Wired.antt =====
-- The loop over the admittances: how its branches hang on its buses.
use sgidal_example.Prelude.{
  ℕ, String, str_eq, ◌≡◌, refl, subst, ◌∙◌, ◌⊎◌, inl, inr, true, false, some, List, [], ◌∷◌, arith,
  ok, Dict, insert, has_key, update, All, has_key-update, has_key-insert, eq_iff, eq_refl,
  Bool-cases, bind_ok, ok_injective,
}
use sgidal_example.Floats.{Floats, Complex}
use sgidal_example.Adapter.Info.{Bus, Branch, init_bus, init_branch, phase_index}
use sgidal_example.Adapter.Extract.{
  Admittance, Edge, Network, read_edge, branch_key, insert_new, fill_branch, add_phase, fill_edge,
  add_edge, add_edges, set_cell,
}

init-matrix : (F : Floats) → (m : List (List (Complex F))) × ((init_branch F).y ≡ some m)
unfolding init_branch
init-matrix F = (_, refl)

module _ {F : Floats} where
  -- Both ends of the branch are buses, and its matrix is still there.
  abbrev pub IsWired : Dict (Bus F) → Branch F → Type 0
  IsWired buses b =
      (has_key b.fr_bus buses ≡ true)
      × (has_key b.to_bus buses ≡ true)
      × ((m : List (List (Complex F))) × (b.y ≡ some m))

  abbrev pub AllWired : Network F → Type 0
  AllWired n = All (λ (p : String × Branch F). IsWired n.bus_info p.1) n.branch_info

  abbrev pub Grows : Dict (Bus F) → Dict (Bus F) → Type 0
  Grows old new = (x : String) → has_key x old ≡ true → has_key x new ≡ true

  has_key-insert_new :
      (name : String) (b : Bus F) (d : Dict (Bus F))
      → (has_key name (insert_new name b d) ≡ true) × Grows d (insert_new name b d)
  unfolding insert_new
  has_key-insert_new name b d = elim (Bool-cases (has_key name d)) [
    | inl old ↦ (rw (old) old, λ x h. rw (old) h)
    | inr new ↦ (
      ground (arith, has_key-insert name name b d, eq_iff name name),
      λ x h. ground (arith, has_key-insert name x b d),
    )
  ]

  -- The branch still has its matrix.
  abbrev HasMatrix : Branch F → Type 0
  HasMatrix b = (m : List (List (Complex F))) × (b.y ≡ some m)

  -- The branches before `key` are wired, the one under `key` has its matrix, and so on for the rest.
  abbrev AlmostWired : String → Dict (Bus F) → Dict (Branch F) → Type 0
  AlmostWired key buses [] = Unit
  AlmostWired key buses ((j, b) ∷ d) =
      ((str_eq j key ≡ true) × HasMatrix b × All (λ (p : String × Branch F). IsWired buses p.1) d)
      ⊎ ((str_eq j key ≡ false) × IsWired buses b × AlmostWired key buses d)

  Grows-IsWired :
      (old new : Dict (Bus F)) → Grows old new → (b : Branch F) → IsWired old b → IsWired new b
  Grows-IsWired old new g b h = (g b.fr_bus h.0, g b.to_bus h.1, h.2)

  pub Grows-AllWired :
      (old new : Dict (Bus F)) (d : Dict (Branch F))
      → Grows old new
      → All (λ (p : String × Branch F). IsWired old p.1) d
      → All (λ (p : String × Branch F). IsWired new p.1) d
  Grows-AllWired old new [] g h = tt
  Grows-AllWired old new ((j, b) ∷ d) g h =
      (Grows-IsWired old new g b h.0, Grows-AllWired old new d g h.1)

  almost_of_All :
      (key : String) (buses : Dict (Bus F)) (d : Dict (Branch F))
      → All (λ (p : String × Branch F). IsWired buses p.1) d
      → AlmostWired key buses d
  almost_of_All key buses [] h = tt
  almost_of_All key buses ((j, b) ∷ d) h = elim (Bool-cases (str_eq j key)) [
    | inl same ↦ inl (same, h.0.2, h.1)
    | inr other ↦ inr (other, h.0, almost_of_All key buses d h.1)
  ]

  almost_of_new :
      (key : String) (new : Branch F) (buses : Dict (Bus F)) (d : Dict (Branch F))
      → HasMatrix new
      → has_key key d ≡ false
      → All (λ (p : String × Branch F). IsWired buses p.1) d
      → AlmostWired key buses (insert key new d)
  almost_of_new key new buses [] m fresh h = inl (eq_refl key, m, tt)
  almost_of_new key new buses ((j, b) ∷ d) m fresh h = elim (Bool-cases (str_eq j key)) [
    | inl same ↦ absurd (ground arith)
    | inr other ↦ rw (other) (inr (other, h.0, almost_of_new key new buses d m (ground arith) h.1))
  ]

  All-update :
      (key : String) (f : Branch F → Branch F) (old new : Dict (Bus F)) (d : Dict (Branch F))
      → Grows old new
      → ((b : Branch F) → HasMatrix b → IsWired new (f b))
      → AlmostWired key old d
      → All (λ (p : String × Branch F). IsWired new p.1) (update key f d)
  All-update key f old new [] g fill h = tt
  All-update key f old new ((j, b) ∷ d) g fill (inl (same, m, rest)) =
      rw (same) (fill b m, Grows-AllWired old new d g rest)
  All-update key f old new ((j, b) ∷ d) g fill (inr (other, w, rest)) =
      rw (other) (Grows-IsWired old new g b w, All-update key f old new d g fill rest)

  fill-IsWired :
      (e : Edge F) (row col : ℕ) (buses : Dict (Bus F)) (b : Branch F)
      → has_key e.from_name buses ≡ true
      → has_key e.to_name buses ≡ true
      → HasMatrix b
      → IsWired buses (fill_branch e row col b)
  unfolding fill_branch
  fill-IsWired e row col buses b from to (m, h) = (from, to, (set_cell row col e.y m, rw h refl))

  has_key_updates :
      (j k : String) (f g : Bus F → Bus F) (d : Dict (Bus F)) → Grows d (update j f (update k g d))
  has_key_updates j k f g d x h = has_key-update j x f (update k g d) ∙ has_key-update k x g d ∙ h

  fill_edge-AllWired :
      (e : Edge F) (branches : Dict (Branch F)) (buses : Dict (Bus F)) (n : Network F)
      → AlmostWired (branch_key e.from_name e.to_name) buses branches
      → fill_edge e branches buses ≡ ok n
      → AllWired n
  unfolding fill_edge
  fill_edge-AllWired e branches buses n h run =
      let key = branch_key e.from_name e.to_name in
      let with_from = insert_new e.from_name (init_bus F) buses in
      let with_to = insert_new e.to_name (init_bus F) with_from in
      let (row, _, run_row) = bind_ok (phase_index 3 e.from_phase) _ run in
      let (col, _, done) = bind_ok (phase_index 3 e.to_phase) _ run_row in
      let after =
        update e.to_name (add_phase e.to_phase)
          (update e.from_name (add_phase e.from_phase) with_to) in
      let (from, grow_from) = has_key-insert_new e.from_name (init_bus F) buses in
      let (to, grow_to) = has_key-insert_new e.to_name (init_bus F) with_from in
      let seen =
        has_key_updates e.to_name e.from_name (add_phase e.to_phase) (add_phase e.from_phase)
          with_to in
      subst AllWired (ok_injective done) (
        All-update key (fill_branch e row col) buses after branches
          (λ x old. seen x (grow_to x (grow_from x old)))
          (λ b m. fill-IsWired e row col after b (seen _ (grow_to _ from)) (seen _ to) m) h)

  add_edge-AllWired : (e : Edge F) (n m : Network F) → AllWired n → add_edge e n ≡ ok m → AllWired m
  unfolding add_edge
  add_edge-AllWired e n m h run =
      let key = branch_key e.from_name e.to_name in
      let key_back = branch_key e.to_name e.from_name in
      elim (Bool-cases (str_eq e.from_name e.to_name)) [
        | inl same ↦ subst AllWired (ok_injective (rw (add_edge, same) at run)) h
        | inr other ↦ elim (Bool-cases (has_key key_back n.branch_info)) [
          | inl back ↦ elim (Bool-cases (has_key key n.branch_info)) [
            | inl there ↦ subst AllWired (ok_injective (rw (add_edge, other, there, back) at run)) h
            | inr new ↦ subst AllWired (ok_injective (rw (add_edge, other, new, back) at run)) h
          ]
          | inr no_back ↦ elim (Bool-cases (has_key key n.branch_info)) [
            | inl there ↦
                fill_edge-AllWired e n.branch_info n.bus_info m
                  (almost_of_All key n.bus_info n.branch_info h)
                  (rw (add_edge, other, no_back, there) at run)
            | inr new ↦
                fill_edge-AllWired e (insert key (init_branch F) n.branch_info) n.bus_info m
                  (almost_of_new key (init_branch F) n.bus_info n.branch_info (init-matrix F) new h)
                  (rw (add_edge, other, no_back, new) at run)
          ]
        ]
      ]

  pub add_edges-AllWired :
      (rows : List (Admittance F)) (n m : Network F)
      → AllWired n
      → add_edges rows n ≡ ok m
      → AllWired m
  unfolding add_edges
  add_edges-AllWired [] n m h run = subst AllWired (ok_injective run) h
  add_edges-AllWired (a ∷ rest) n m h run =
      let (e, _, run_edge) = bind_ok (read_edge a) _ run in
      let (next, run_add, run_rest) = bind_ok (add_edge e n) _ run_edge in
      add_edges-AllWired rest next m (add_edge-AllWired e n next h run_add) run_rest
