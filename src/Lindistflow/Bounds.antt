-- ===== src/Lindistflow/Bounds.antt =====
-- Actions that fill rows of the arrays inside their shape.
pub mod Flow
pub mod Assembly
pub mod Inequalities
pub mod Control
pub mod Drops
use sgidal_example.Prelude.{
  Option-cases, length, set, All, length-set, Result, pos, ok, ℕ, suc, ◌+◌, ◌≤◌, ◌<◌, ◌≡◌, refl,
  sym, ap, ◌∙◌, subst, inl, inr, Option, none, some, List, [], ◌∷◌, ◌++◌, arith,
}
use sgidal_example.Prelude.Exec.{Exec, pure, lift, for_each, ◌>>=◌, ◌>>◌}
use sgidal_example.Floats.{Floats}
use sgidal_example.Lindistflow.Build.{
  Build, axis_index, set_a, set_b, advance, append_v_lim, set_limit, cell_at,
}

-- 0 while the limits are unbound, else one more than there are.
abbrev pub limit_count : {A : Type 0} → Option (List A) → ℕ
limit_count none = 0
limit_count (some limits) = suc (length limits)

pub axis_index-pos : (n i : ℕ) → i < n → axis_index n (pos i) ≡ ok i
unfolding axis_index
axis_index-pos n i h = ground arith

-- The sum of a measure over a list.
abbrev pub total : {A : Type 0} → (A → ℕ) → List A → ℕ
total w [] = 0
total w (x ∷ xs) = w x + total w xs

module _ {F : Floats} where
  -- `k` rows later: the shape is the same, and so is every row before the first of them.
  abbrev pub Grown : ℕ → Build F → Build F → Type 0
  Grown k s t =
      (t.counteq ≡ s.counteq + k)
      × (t.rows ≡ s.rows)
      × (t.cols ≡ s.cols)
      × ((r c : ℕ) → r < s.counteq → cell_at F t.a_cells r c ≡ cell_at F s.a_cells r c)

-- In an array of `n` columns that has `need` more rows, with the limits counted as `l`, the action returns, is `k`
-- rows further and leaves `l'`.
pub record Runs (F : Floats) (n l l' need k : ℕ) (m : Exec (Build F) (Unit {0})) : Type 0 where
  pub runs :
      (s : Build F)
      → s.cols ≡ n
      → limit_count s.limits ≡ l
      → s.counteq + need ≤ s.rows
      → (t : Build F) × (m s ≡ (ok tt, t)) × (limit_count t.limits ≡ l') × Grown k s t

module _ {F : Floats} where
  pub then_ok :
      (m : Exec (Build F) (Unit {0})) (k : Exec (Build F) (Unit {0})) (s t : Build F)
      → m s ≡ (ok tt, t)
      → (m >> k) s ≡ k t
  then_ok m k s t run =
      ap (λ (p : Result (Unit {0}) × Build F). (((λ (u : Build F). p) >> k) s)) run

  module _ {n l : ℕ} where
    pub Runs-pure : Runs F n l l 0 0 (pure tt)
    Runs-pure = record {
      runs = λ s width limits room. (s, refl, limits, (omega arith, refl, refl, λ r c h. refl));
    }

    pub Runs-set_a : (c : ℕ) (v : F.Float) → c < n → Runs F n l l 1 0 (set_a {F = F} (pos c) v)
    unfolding set_a
    Runs-set_a c v h = record {
      runs = λ s width limits room.
          let row = axis_index-pos s.rows s.counteq (omega arith) in
          let col = axis_index-pos s.cols c (omega arith) in
          (
            record s { a_cells = (s.counteq, c, v) ∷ s.a_cells },
            rw (row, col) refl,
            limits,
            (omega arith, refl, refl, λ r d before. ground arith),
          );
    }

    pub Runs-set_b : (v : F.Float) → Runs F n l l 1 0 (set_b {F = F} v)
    unfolding set_b
    Runs-set_b v = record {
      runs = λ s width limits room.
          let row = axis_index-pos s.rows s.counteq (omega arith) in
          (
            record s { b_cells = (s.counteq, v) ∷ s.b_cells },
            rw (row) refl,
            limits,
            (omega arith, refl, refl, λ r d before. refl),
          );
    }

    pub Runs-advance : Runs F n l l 0 1 advance
    Runs-advance = record {
      runs = λ s width limits room. (
        record s { counteq = s.counteq + 1 },
        refl,
        limits,
        (refl, refl, refl, λ r c before. refl),
      );
    }

    pub Runs-append_v_lim : (i : ℕ) → Runs F n l l 0 0 (append_v_lim i)
    Runs-append_v_lim i = record {
      runs = λ s width limits room. (
        record s { v_lim = s.v_lim ++ i ∷ [] },
        refl,
        limits,
        (omega arith, refl, refl, λ r c before. refl),
      );
    }

    pub Runs-set_limit :
        (i : ℕ) (v : F.Float) → suc i < l → Runs F n l l 0 0 (set_limit {F = F} i v)
    unfolding set_limit
    Runs-set_limit i v inside = record {
      runs = λ s width limits room. elim (Option-cases s.limits) [
        | inl unbound ↦ let none_bound = ap limit_count unbound in absurd (omega arith)
        | inr (old, bound) ↦
            let count = ap limit_count bound in
            let at = axis_index-pos (length old) i (omega arith) in
            (
              record s { limits = some (set old i v) },
              rw (bound, at) refl,
              ap suc (length-set old i v) ∙ sym count ∙ limits,
              (omega arith, refl, refl, λ r c before. refl),
            )
      ];
    }

  module _ {n l l' : ℕ} where
    pub Runs-lift :
        {A : Type 0} (r : Result A) (f : A → Exec (Build F) (Unit {0})) (a : A) (need k : ℕ)
        → r ≡ ok a
        → Runs F n l l' need k (f a)
        → Runs F n l l' need k (lift r >>= f)
    Runs-lift r f a need k e h = record {
      runs = λ s width limits room.
          let (t, run, known, grown) = h.runs s width limits room in (t, rw (e) run, known, grown);
    }

    pub Runs-then :
        {l'' : ℕ} (m m' : Exec (Build F) (Unit {0})) (need need' k k' total : ℕ)
        → Runs F n l l' need k m
        → Runs F n l' l'' need' k' m'
        → need ≤ total
        → k + need' ≤ total
        → Runs F n l l'' total (k + k') (m >> m')
    Runs-then m m' need need' k k' total h h' p q = record {
      runs = λ s width limits room.
          let (t, run, known, grown) = h.runs s width limits (omega arith) in
          let (u, run', known', grown') = h'.runs t (grown.2 ∙ width) known (omega arith) in
          (
            u,
            then_ok m m' s t run ∙ run',
            known',
            (
              omega arith,
              grown'.1 ∙ grown.1,
              grown'.2 ∙ grown.2,
              λ r c before. grown'.3 r c (omega arith) ∙ grown.3 r c before,
            ),
          );
    }

  module _ {n l l' : ℕ} where
    -- An action on the row that is next, then the rest.
    pub Runs-cell :
        {m m' : Exec (Build F) (Unit {0})} {need height k l'' : ℕ}
        → Runs F n l l' need 0 m
        → Runs F n l' l'' height k m'
        → need ≤ height
        → Runs F n l l'' height k (m >> m')
    Runs-cell {m = m} {m' = m'} {need = need} {height = height} {k = k} {l'' = l''} h h' p =
        subst (λ i. Runs F n l l'' height i (m >> m')) (omega arith)
          (Runs-then m m' need height 0 k height h h' p (omega arith))

    pub Runs-next :
        {m : Exec (Build F) (Unit {0})} {k : ℕ}
        → Runs F n l l' k k m
        → Runs F n l l' (1 + k) (1 + k) (advance >> m)
    Runs-next {m = m} {k = k} h =
        Runs-then advance m 0 k 1 k (1 + k) Runs-advance h (omega arith) (omega arith)

    -- Rows, then the rows after them.
    pub Runs-rows :
        {m m' : Exec (Build F) (Unit {0})} {k k' l'' : ℕ}
        → Runs F n l l' k k m
        → Runs F n l' l'' k' k' m'
        → Runs F n l l'' (k + k') (k + k') (m >> m')
    Runs-rows {m = m} {m' = m'} {k = k} {k' = k'} h h' =
        Runs-then m m' k k' k k' (k + k') h h' (omega arith) (omega arith)

    pub Runs-cast :
        {m : Exec (Build F) (Unit {0})} {k k' : ℕ}
        → Runs F n l l' k k m
        → k ≡ k'
        → Runs F n l l' k' k' m
    Runs-cast {m = m} h e = subst (λ i. Runs F n l l' i i m) e h

  module _ {n l : ℕ} where
    pub Runs-advance_row : Runs F n l l 1 1 advance
    Runs-advance_row = record {
      runs = λ s width limits room. Runs-advance.runs s width limits (omega arith);
    }

    pub Runs-pure_row : Runs F n l l 1 0 (pure tt)
    Runs-pure_row = record {
      runs = λ s width limits room. Runs-pure.runs s width limits (omega arith);
    }

    -- A loop: the rows of its rounds add up.
    pub Runs-for_each :
        {A : Type 0} (w : A → ℕ) (body : A → Exec (Build F) (Unit {0})) (P : A → Type 0)
        → ((x : A) → P x → Runs F n l l (w x) (w x) (body x))
        → (xs : List A) → All P xs
        → Runs F n l l (total w xs) (total w xs) (for_each xs body)
    Runs-for_each w body P h [] p = Runs-pure
    Runs-for_each w body P h (x ∷ xs) p = Runs-rows (h x p.0) (Runs-for_each w body P h xs p.1)
