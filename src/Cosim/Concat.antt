-- ===== src/Cosim/Concat.antt =====
-- The concatenation of arrays keeps what belongs together at the same place.
use sgidal_example.Prelude.{
  Bool-cases, Option-cases, length, all, All, length-append, All-map, assert, bind_ok, ok_injective,
  ok, ℕ, ◌+◌, String, ◌≡◌, refl, sym, ap, ◌∙◌, subst, inl, inr, Option, none, some, List, [], ◌∷◌,
  ◌++◌, map, map-append, arith, str_eq, eq_refl,
}
use mathlib.Core.List.{append-nil}
use sgidal_example.Floats.{Floats, Complex}
use sgidal_example.Feeder.Power.{Pq}
use sgidal_example.Cosim.{
  MeasurementArray, same_time, flatten, gather, has_value, joined, concat_measurement_arrays,
  powers_of, xarray_to_powers, get_powers,
}

-- A list that is missing, or has that length.
abbrev pub IsFit : {A : Type 0} → Option (List A) → ℕ → Type 0
IsFit none n = Unit
IsFit (some xs) n = length xs ≡ n

-- Every list of the array has one element for each of its names.
abbrev pub IsWhole : {A : Type 0} → MeasurementArray A → Type 0
IsWhole m =
    (length m.values ≡ length m.ids)
    × IsFit m.equipment_ids (length m.ids)
    × IsFit m.accuracy (length m.ids)
    × IsFit m.bad_data_threshold (length m.ids)

module _ {A B C : Type 0} (f : A → List B) (g : A → List C) where
  length-flatten :
      (ps : List A)
      → All (λ q. length (f q) ≡ length (g q)) ps
      → length (flatten (map f ps)) ≡ length (flatten (map g ps))
  length-flatten [] h = refl
  length-flatten (p ∷ ps) h =
      let here = length-append (f p) (flatten (map f ps)) in
      let there = length-append (g p) (flatten (map g ps)) in
      let rest = length-flatten ps h.1 in omega (arith, h.0)

gather-cons :
    {B : Type 0} (x : Option (List B)) (rest : List (Option (List B))) (n m k : ℕ)
    → IsFit x n
    → IsFit (gather rest) m
    → k ≡ n + m
    → IsFit (gather (x ∷ rest)) k
unfolding gather
gather-cons none rest n m k h h' e = tt
gather-cons (some xs) rest n m k h h' e = elim (Option-cases (gather rest)) [
  | inl absent ↦ rw (absent) tt
  | inr (ys, present) ↦
      let count : length ys ≡ m = rw (present) at h' in
      rw (present) (length-append xs ys ∙ omega arith)
]

module _ {A B C : Type 0} (f : A → Option (List B)) (g : A → List C) where
  gather-IsFit :
      (ps : List A)
      → All (λ q. IsFit (f q) (length (g q))) ps
      → IsFit (gather (map f ps)) (length (flatten (map g ps)))
  unfolding gather
  gather-IsFit [] h = refl
  gather-IsFit (p ∷ ps) h =
      gather-cons (f p) (map f ps) _ _ _ h.0 (gather-IsFit ps h.1)
        (length-append (g p) (flatten (map g ps)))

module _ {A : Type 0} where
  -- The array is whole, and has the names and the values of the others, in order.
  abbrev pub IsJoined : List (MeasurementArray A) → MeasurementArray A → Type 0
  IsJoined ps r =
      IsWhole r
      × (r.ids ≡ flatten (map (λ (q : MeasurementArray A). q.ids) ps))
      × (r.values ≡ flatten (map (λ (q : MeasurementArray A). q.values) ps))

  joined-IsJoined :
      (p : MeasurementArray A) (ps : List (MeasurementArray A)) (r : MeasurementArray A)
      → All IsWhole ps
      → joined p ps ≡ ok r
      → IsJoined ps r
  unfolding joined
  joined-IsJoined p ps r h e =
      let values =
        length-flatten (λ (q : MeasurementArray A). q.values) (λ q. q.ids) ps
          (All-map (λ q w. w.0) ps h) in
      let equipment =
        gather-IsFit (λ (q : MeasurementArray A). q.equipment_ids) (λ q. q.ids) ps
          (All-map (λ q w. w.1) ps h) in
      let accuracy =
        gather-IsFit (λ (q : MeasurementArray A). q.accuracy) (λ q. q.ids) ps
          (All-map (λ q w. w.2) ps h) in
      let threshold =
        gather-IsFit (λ (q : MeasurementArray A). q.bad_data_threshold) (λ q. q.ids) ps
          (All-map (λ q w. w.3) ps h) in
      elim (Option-cases (gather (map (λ (q : MeasurementArray A). q.equipment_ids) ps))) [
        | inl absent ↦ elim (Bool-cases (has_value p.equipment_ids)) [
          | inl wants ↦ absurd (cc (rw (absent, wants, joined) at e))
          | inr bare ↦
              subst (IsJoined ps) (ok_injective (rw (absent, bare, joined) at e))
                ((values, tt, accuracy, threshold), refl, refl)
        ]
        | inr (ids, present) ↦
            subst (IsJoined ps) (ok_injective (rw (present, joined) at e))
              ((values, rw (present) at equipment, accuracy, threshold), refl, refl)
      ]

  -- The concatenation of whole arrays, where it returns, is whole, and has the names and the values of
  -- the arrays, in order.
  pub concat_measurement_arrays-IsJoined :
      (ps : List (MeasurementArray A)) (r : MeasurementArray A)
      → All IsWhole ps
      → concat_measurement_arrays ps ≡ ok r
      → IsJoined ps r
  unfolding concat_measurement_arrays
  concat_measurement_arrays-IsJoined [] r h e = absurd (cc)
  concat_measurement_arrays-IsJoined (p ∷ ps) r h e =
      let (_, units, e') = bind_ok (assert (all (λ q. str_eq p.units q.units) (p ∷ ps))) _ e in
      let (_, time, e'') = bind_ok (assert (all (λ q. same_time p.time q.time) (p ∷ ps))) _ e' in
      joined-IsJoined p (p ∷ ps) r h e''

flatten-map :
    {A B : Type 0} (f : A → B) (xs ys zs ws : List A)
    → map f xs ++ (map f ys ++ (map f zs ++ (map f ws ++ []))) ≡ map f (xs ++ (ys ++ (zs ++ ws)))
flatten-map f xs ys zs ws = sym (
    map-append f xs (ys ++ (zs ++ ws))
    ∙ ap (λ r. map f xs ++ r)
        (map-append f ys (zs ++ ws)
          ∙ ap (λ r. map f ys ++ r)
              (map-append f zs ws ∙ ap (λ r. map f zs ++ r) (sym (append-nil (map f ws))))))

module _ (F : Floats) (units : String) (part : Complex F → F.Float) (l p g c : List (Pq F)) where
  powers_of-joined :
      concat_measurement_arrays (
        powers_of F units part l
        ∷ powers_of F units part p
        ∷ powers_of F units part g
        ∷ powers_of F units part c
        ∷ [])
      ≡ ok (powers_of F units part (l ++ (p ++ (g ++ c))))
  unfolding concat_measurement_arrays joined gather
  powers_of-joined = rw (eq_refl units) (λ i. ok (record {
    values = flatten-map (λ (x : Pq F). part x.value) l p g c i;
    ids = flatten-map (λ (x : Pq F). x.id) l p g c i;
    equipment_ids = some (flatten-map (λ (x : Pq F). x.equipment_id) l p g c i);
    units = units;
    accuracy = none;
    bad_data_threshold = none;
    time = none;
  }))

-- The four kinds of elements are joined without an error: the powers of the joined list, loads first,
-- then PV systems, generators and capacitors.
pub get_powers-append :
    (F : Floats) (real_units imag_units : String) (pq_load pq_pv pq_gen pq_cap : List (Pq F))
    → get_powers F real_units imag_units pq_load pq_pv pq_gen pq_cap
      ≡ ok (xarray_to_powers F real_units imag_units (pq_load ++ (pq_pv ++ (pq_gen ++ pq_cap))))
unfolding get_powers xarray_to_powers
get_powers-append F real_units imag_units pq_load pq_pv pq_gen pq_cap =
    rw
      (
        powers_of-joined F real_units (λ z. z.0) pq_load pq_pv pq_gen pq_cap,
        powers_of-joined F imag_units (λ z. z.1) pq_load pq_pv pq_gen pq_cap,
      )
      refl
