-- ===== src/Omoo/SetPoints.antt =====
-- Every set point of `pv_cost` lies within what its PV system can give.
use sgidal_example.Prelude.{
  ltb, length, get_elem?, set, replicate, All, length-replicate, length-set, lt_of_get_elem?,
  get_elem?-lt, Result, ok, ℕ, suc, ◌+◌, ◌≤◌, ◌<◌, ◌≡◌, refl, ap, ◌∙◌, subst, true, some, List, [],
  ◌∷◌, arith, zip_with, sym, ◌==◌,
}
use sgidal_example.Floats.{Floats}
use sgidal_example.Wls.Taken.{All-get_elem?, length-zip_with, broadcast-even}
use sgidal_example.Lindistflow.Greatest.{IsOrdered}
use sgidal_example.Omoo.{
  PvRow, Cost, Step, column, dual_term, put, zero_f, projected, cost_fun, pv_cost_at, pv_cost_from,
  pv_cost,
}
use sgidal_example.Omoo.Bounded.{HasRoom, InBounds, project-InBounds}

-- The set points of the rows, in order.
abbrev pub AreInBounds :
    (F : Floats) (ordered : IsOrdered F)
    → F.Float
    → List (PvRow F)
    → List F.Float
    → List F.Float
    → Type 0
AreInBounds F ordered sbase [] [] [] = Unit
AreInBounds F ordered sbase (row ∷ rows) (p ∷ ps) (q ∷ qs) =
    InBounds F ordered (F.over row.avai sbase) (F.over row.kvar_rated sbase) p q
    × AreInBounds F ordered sbase rows ps qs
AreInBounds F ordered sbase _ _ _ = ⊥

column_total :
    {A : Type 0} (n i : ℕ) (m : List (List A))
    → i < n
    → All (λ row. n ≤ length row) m
    → (xs : List A) × (column i m ≡ ok xs) × (length xs ≡ length m)
unfolding column
column_total n i [] h wide = ([], refl, refl)
column_total n i (row ∷ m) h wide =
    let (x, e) = get_elem?-lt row i (omega (arith, h, wide.0)) in
    let (xs, es, many) = column_total n i m h wide.1 in (x ∷ xs, rw (e, es) refl, ap suc many)

put_total :
    {A : Type 0} (n i : ℕ) (v : A) (xs : List A)
    → length xs ≡ n
    → i < n
    → put i v xs ≡ ok (set xs i v)
unfolding put
put_total n i v xs e h = let t : ltb i (length xs) ≡ true = ground (arith, e, h) in rw t refl

module _ (F : Floats) (ordered : IsOrdered F) (dot : List F.Float → List F.Float → F.Float)
    (sbase : F.Float) (n : ℕ) where
  abbrev pub Room : PvRow F → Type 0
  Room row = HasRoom F ordered (F.over row.avai sbase) (F.over row.kvar_rated sbase)

  loop_bounded :
      (step : ℕ → ℕ → F.Float → Result (Cost F)) (frame rows : List (PvRow F)) (pp : ℕ)
      (index : List ℕ) (dlp dlq : List F.Float) (tot : F.Float)
      → ((i ii : ℕ) (t : F.Float) (row : PvRow F)
          → get_elem? frame i ≡ some row
          → ii < n
          → (c : Cost F) × (step i ii t ≡ ok c)
            × InBounds F ordered (F.over row.avai sbase) (F.over row.kvar_rated sbase) c.p c.q)
      → ((i : ℕ) → get_elem? frame (pp + i) ≡ get_elem? rows i)
      → length index ≡ length rows
      → All (λ ii. ii < n) index
      → length dlp ≡ n
      → length dlq ≡ n
      → (s : Step F) × (pv_cost_from dot step pp index dlp dlq tot ≡ ok s)
        × AreInBounds F ordered sbase rows s.pk_current s.qk_current
  unfolding pv_cost_from
  loop_bounded step frame [] pp [] dlp dlq tot good at many inside np nq = (_, refl, tt)
  loop_bounded step frame [] pp (ii ∷ index) dlp dlq tot good at many inside np nq =
      absurd (omega arith)
  loop_bounded step frame (row ∷ rows) pp [] dlp dlq tot good at many inside np nq =
      absurd (omega arith)
  loop_bounded step frame (row ∷ rows) pp (ii ∷ index) dlp dlq tot good at many inside np nq =
      let here : get_elem? frame pp ≡ some row =
        subst (λ k. get_elem? frame k ≡ some row) (let e : pp + 0 ≡ pp = omega arith in e) (at 0) in
      let (c, run, bounds) = good pp ii tot row here inside.0 in
      let first = put_total n ii c.dlp_pp dlp np inside.0 in
      let second = put_total n ii c.dlq_pp dlq nq inside.0 in
      let next : (i : ℕ) → get_elem? frame (suc pp + i) ≡ get_elem? rows i = λ (i : ℕ).
        ap (get_elem? frame) (let e : suc pp + i ≡ pp + suc i = omega arith in e) ∙ at (suc i) in
      let (s, rest, others) =
        loop_bounded step frame rows (suc pp) index (set dlp ii c.dlp_pp) (set dlq ii c.dlq_pp)
          c.tot_cost good next (omega (arith, many)) inside.1 (length-set dlp ii c.dlp_pp ∙ np)
          (length-set dlq ii c.dlq_pp ∙ nq) in
      (
        record s { pk_current = c.p ∷ s.pk_current; qk_current = c.q ∷ s.qk_current },
        rw (run, first, second, rest) refl,
        (bounds, others),
      )

  dual_term_total :
      (ii : ℕ) (m : List (List F.Float)) (muk lambdak : List F.Float)
      → ii < n
      → All (λ row. n ≤ length row) m
      → length muk ≡ length m
      → length lambdak ≡ length m
      → (d : F.Float) × (dual_term F dot ii m muk lambdak ≡ ok d)
  unfolding dual_term
  dual_term_total ii m muk lambdak inside wide nm nl =
      let (values, got, many) = column_total n ii m inside wide in
      let change = zip_with F.minus muk lambdak in
      let fits : (length values == length change) ≡ true =
        ground (arith, many, nl, length-zip_with F.minus muk lambdak (nm ∙ sym nl)) in
      (dot values change, rw (got, broadcast-even F.minus muk lambdak (nm ∙ sym nl), fits) refl)

  at_bounded :
      (g h : List (List F.Float)) (pk qk : List F.Float) (alpha : F.Float) (frame : List (PvRow F))
      (lambdak muk set_real set_imag : List F.Float)
      → All (λ row. n ≤ length row) g
      → All (λ row. n ≤ length row) h
      → length muk ≡ length g
      → length lambdak ≡ length g
      → length h ≡ length g
      → length pk ≡ length frame
      → length qk ≡ length frame
      → length set_real ≡ length frame
      → length set_imag ≡ length frame
      → All Room frame
      → (i ii : ℕ) (t : F.Float) (row : PvRow F) → get_elem? frame i ≡ some row
      → ii < n
      → (c : Cost F) × (pv_cost_at dot g h pk qk sbase alpha frame lambdak muk set_real set_imag i
            ii t
          ≡ ok c)
        × InBounds F ordered (F.over row.avai sbase) (F.over row.kvar_rated sbase) c.p c.q
  unfolding pv_cost_at cost_fun projected
  at_bounded g h pk qk alpha frame lambdak muk set_real set_imag wg wh nm nl nh np nq nr ni rooms i
        ii t row at inside =
      let placed = lt_of_get_elem? frame i row at in
      let (real, e1) = get_elem?-lt set_real i (omega (arith, placed, nr)) in
      let (imag, e2) = get_elem?-lt set_imag i (omega (arith, placed, ni)) in
      let (p, e3) = get_elem?-lt pk i (omega (arith, placed, np)) in
      let (q, e4) = get_elem?-lt qk i (omega (arith, placed, nq)) in
      let (h_dual, e5) = dual_term_total ii h muk lambdak inside wh (nm ∙ sym nh) (nl ∙ sym nh) in
      let (g_dual, e6) = dual_term_total ii g muk lambdak inside wg nm nl in
      (
        projected (F.over imag sbase) q (F.over (F.minus row.avai real) sbase) p (zero_f F)
            (F.over row.avai sbase) (F.over row.kvar_rated sbase) alpha t h_dual g_dual,
        rw (at, e1, e2, e3, e4, e5, e6) refl,
        project-InBounds F ordered (F.over row.avai sbase) (F.over row.kvar_rated sbase) _ _
            (All-get_elem? Room frame i row rooms at),
      )

  -- For floats that are not NaN, matrices of as many rows as there are dual variables that have a
  -- column for each index, and arrays with a value for each PV system, whose bounds fit together:
  -- `pv_cost` returns, and the set points are one pair
  -- for each PV system, in order. Each real one is between 0 and the available power; each reactive
  -- one is within a fifth of the capacity, and where power is available within that power divided by
  -- the root of 2.
  pub pv_cost-AreInBounds :
      (g h : List (List F.Float)) (pk qk : List F.Float) (alpha : F.Float) (index : List ℕ)
      (frame : List (PvRow F)) (lambdak muk set_real set_imag : List F.Float)
      → All (λ row. n ≤ length row) g
      → All (λ row. n ≤ length row) h
      → length muk ≡ length g
      → length lambdak ≡ length g
      → length h ≡ length g
      → length pk ≡ length frame
      → length qk ≡ length frame
      → length set_real ≡ length frame
      → length set_imag ≡ length frame
      → length index ≡ length frame
      → All (λ ii. ii < n) index
      → All Room frame
      → (s : Step F) × (pv_cost dot g h n pk qk sbase alpha index frame lambdak muk set_real
            set_imag
          ≡ ok s)
        × AreInBounds F ordered sbase frame s.pk_current s.qk_current
  unfolding pv_cost
  pv_cost-AreInBounds g h pk qk alpha index frame lambdak muk set_real set_imag wg wh nm nl nh np nq
        nr ni many inside rooms =
      loop_bounded (pv_cost_at dot g h pk qk sbase alpha frame lambdak muk set_real set_imag) frame
        frame 0 index (replicate n (zero_f F)) (replicate n (zero_f F)) (zero_f F)
        (λ i ii t row at lt.
          at_bounded g h pk qk alpha frame lambdak muk set_real set_imag wg wh nm nl nh np nq nr ni
            rooms i ii t row at lt)
        (λ i. ap (get_elem? frame) (let e : 0 + i ≡ i = omega arith in e)) many inside
        (length-replicate n (zero_f F)) (length-replicate n (zero_f F))
