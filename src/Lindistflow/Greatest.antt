-- ===== src/Lindistflow/Greatest.antt =====
-- `ignore_phase` picks the set point of greatest size.
use sgidal_example.Prelude.{
  if◌then◌else◌, Bool-cases, get_elem?, Dict, lookup, ℕ, suc, String, ◌≡◌, refl, sym, ap, ◌∙◌,
  subst, ◌⊎◌, inl, inr, true, false, some, [], ◌∷◌, arith, str_eq,
}
use sgidal_example.Floats.{Floats}
use sgidal_example.Lindistflow.{ignore_phase_from, ignore_phase}

-- The order of the floats that are not NaN.
pub record IsOrdered (F : Floats) : Type 0 where
  pub irreflexive : (x : F.Float) → F.lt x x ≡ false
  pub transitive : (x y z : F.Float) → F.lt y x ≡ false → F.lt z y ≡ false → F.lt z x ≡ false
  pub asymmetric : (x y : F.Float) → F.lt x y ≡ true → F.lt y x ≡ false

module _ (F : Floats) (ordered : IsOrdered F) where
  -- The result is no smaller than where the loop started.
  ignore_phase_from-start :
      (x : F.Float) (d : Dict F.Float) → F.lt (F.abs (ignore_phase_from F x d)) (F.abs x) ≡ false
  unfolding ignore_phase_from
  ignore_phase_from-start x [] = ordered.irreflexive (F.abs x)
  ignore_phase_from-start x ((key, val) ∷ rest) = elim (Bool-cases (F.lt (F.abs x) (F.abs val))) [
    | inl greater ↦
        let later = ignore_phase_from-start val rest in
        rw (greater) (
          ordered.transitive (F.abs x) (F.abs val) (F.abs (ignore_phase_from F val rest))
            (ordered.asymmetric (F.abs x) (F.abs val) greater) later)
    | inr kept ↦ rw (kept) (ignore_phase_from-start x rest)
  ]

  chosen-greater :
      (x w : F.Float) → F.lt (F.abs (if F.lt (F.abs x) (F.abs w) then w else x)) (F.abs w) ≡ false
  chosen-greater x w = elim (Bool-cases (F.lt (F.abs x) (F.abs w))) [
    | inl greater ↦ rw (greater) (ordered.irreflexive (F.abs w))
    | inr kept ↦ rw (kept) kept
  ]

  ignore_phase_from-greatest :
      (x : F.Float) (d : Dict F.Float) (key : String) (val : F.Float)
      → lookup key d ≡ some val
      → F.lt (F.abs (ignore_phase_from F x d)) (F.abs val) ≡ false
  unfolding ignore_phase_from
  ignore_phase_from-greatest x [] key val at = absurd (cc)
  ignore_phase_from-greatest x ((k, w) ∷ rest) key val at =
      let next = if F.lt (F.abs x) (F.abs w) then w else x in
      let here =
        ordered.transitive (F.abs w) (F.abs next) (F.abs (ignore_phase_from F next rest))
          (chosen-greater x w) (ignore_phase_from-start next rest) in
      elim (Bool-cases (str_eq k key)) [
        | inl same ↦
            let found : w ≡ val = ground (arith, at, same) in
            subst (λ v. F.lt (F.abs (ignore_phase_from F next rest)) (F.abs v) ≡ false) found here
        | inr other ↦ ignore_phase_from-greatest next rest key val (ground (arith, at, other))
      ]

  -- Where it stops is the start or a set point.
  ignore_phase_from-found :
      (x : F.Float) (d : Dict F.Float)
      → (ignore_phase_from F x d ≡ x)
        ⊎ ((key : String) × (i : ℕ) × (get_elem? d i ≡ some (key, ignore_phase_from F x d)))
  unfolding ignore_phase_from
  ignore_phase_from-found x [] = inl refl
  ignore_phase_from-found x ((k, w) ∷ rest) =
      let next = if F.lt (F.abs x) (F.abs w) then w else x in
      elim (ignore_phase_from-found next rest) [
        | inl same ↦ elim (Bool-cases (F.lt (F.abs x) (F.abs w))) [
          | inl greater ↦ inr (k, 0, ap (λ v. some (k, v)) (sym (same ∙ rw (greater) refl)))
          | inr kept ↦ inl (same ∙ rw (kept) refl)
        ]
        | inr (key, i, at) ↦ inr (key, suc i, at)
      ]

  -- Of the set points none has a greater size than the one that is picked, and that one is a set point
  -- or 0.
  pub ignore_phase-greatest :
      (d : Dict F.Float) (key : String) (val : F.Float)
      → lookup key d ≡ some val
      → (F.lt (F.abs (ignore_phase F d)) (F.abs val) ≡ false)
        × ((ignore_phase F d ≡ F.from_ℕ 0)
            ⊎ ((key : String) × (i : ℕ) × (get_elem? d i ≡ some (key, ignore_phase F d))))
  unfolding ignore_phase
  ignore_phase-greatest d key val at =
      (ignore_phase_from-greatest (F.from_ℕ 0) d key val at, ignore_phase_from-found (F.from_ℕ 0) d)
