-- ===== src/Measuring/Relayed.antt =====
-- The relay's loop from its first grant of time to its last.
use sgidal_example.Prelude.{
  length, All, mem, ok, String, ◌≡◌, refl, sym, ap, ◌∙◌, true, some, List, [], ◌∷◌, ◌++◌, map,
  map-append, arith,
}
use mathlib.Core.List.{append-nil, append_assoc}
use sgidal_example.Floats.{Floats}
use sgidal_example.Measuring.{
  MeasurementArray, apply, noisy, Relay, Grant, granted, max_time, transform, publish, destroy, run,
}
use sgidal_example.Measuring.Reindexed.{reindex-ids}

module _ {A : Type 0} where
  -- The array has as many values, and as many equipment where it has any, as ids, and every name of
  -- the file is one of the ids.
  abbrev pub IsReadable : MeasurementArray A × List String → Type 0
  IsReadable p =
      (length p.0.values ≡ length p.0.ids)
      × ((equipment : List String)
          → p.0.equipment_ids ≡ some equipment
          → length equipment ≡ length p.0.ids)
      × All (λ name. mem name p.0.ids ≡ true) p.1

  abbrev pub ids_of : List (MeasurementArray A) → List (List String)
  ids_of = map (λ m. m.ids)

  abbrev pub files_of : List (MeasurementArray A × List String) → List (List String)
  files_of = map (λ p. p.1)

module _ {F : Floats} where
  abbrev pub grants_of : List (MeasurementArray F.Float × List String) → List (Grant F)
  grants_of [] = max_time ∷ []
  grants_of ((m, file) ∷ rounds) = granted m file ∷ grants_of rounds

module _ {F : Floats} {G : Type 0} (normal : G → F.Float → F.Float × G) where
  transform-ids :
      (m : MeasurementArray F.Float) (file : List String) (s : Relay F G)
      → IsReadable (m, file)
      → (r : MeasurementArray F.Float) × (g : G) × (transform normal m file s
          ≡ (ok r, record s { rng = g }))
        × (r.ids ≡ file)
  unfolding transform apply
  transform-ids m file s h =
      let (r, run_reindex, same) = reindex-ids m file h.0 h.1 h.2 in
      let noised =
        apply (noisy F normal s.multiplicative_noise_stddev s.additive_noise_stddev) s.rng r in
      (noised.0, noised.1, rw (run_reindex) refl, same)

  -- Where every message has as many values as ids, as many equipment where it has any, and every name
  -- of the measurement file of its round among its ids, which need not be distinct: the loop returns,
  -- leaves HELICS, and has published one array for each round, in order, with the names of its file.
  pub run_publishes :
      (rounds : List (MeasurementArray F.Float × List String)) (s : Relay F G)
      → All IsReadable rounds
      → (end : Relay F G) × (run normal (grants_of rounds) s ≡ (ok tt, end))
        × (end.disconnected ≡ true)
        × (ids_of end.published ≡ ids_of s.published ++ files_of rounds)
  unfolding run publish destroy
  run_publishes [] s h =
      (record s { disconnected = true }, refl, refl, sym (append-nil (ids_of s.published)))
  run_publishes ((m, file) ∷ rounds) s h =
      let (r, g, run_first, same) = transform-ids m file s h.0 in
      let after : Relay F G = record s { rng = g; published = s.published ++ r ∷ [] } in
      let (end, run_rest, out, ids) = run_publishes rounds after h.1 in
      (
        end,
        ground (arith, run_first, run_rest),
        out,
        ids
            ∙ ap (λ xs. xs ++ files_of rounds)
                (map-append (λ (a : MeasurementArray F.Float). a.ids) s.published (r ∷ [])
                  ∙ ap (λ n. ids_of s.published ++ n ∷ []) same)
            ∙ append_assoc (ids_of s.published) (file ∷ []) (files_of rounds),
      )
