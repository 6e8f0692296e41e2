-- ===== src/Indexing/Permutation.antt =====
-- `permutation` and `get_indices` translate positions, and raise `KeyError` on an unknown name.
use sgidal_example.Prelude.{
  IsUnique, ℕ, zero, suc, String, ◌≡◌, refl, inl, inr, true, false, some, List, [], ◌∷◌, map, mem,
  lookup, ok, raise, key_error, get_elem?, All, length, map_result-length, map_result-map,
  or_raise-eq-ok, Option-cases, ◌++◌, ◌<◌, lt_of_get_elem?,
}
use sgidal_example.Indexing.{index_map, permutation}
use sgidal_example.Indexing.Lookup.{
  index_map_sound, index_map_complete, index_map-none, get_elem?-injective,
}

-- Where `permutation` succeeds, `to_list[permute[i]]` is `from_list[i]` for every `i`.
pub permutation_sound :
    (from_list to_list : List String) (ps : List ℕ)
    → permutation from_list to_list ≡ ok ps
    → map (get_elem? to_list) ps ≡ map some from_list
unfolding permutation
permutation_sound from_list to_list ps =
    map_result-map _ (get_elem? to_list) some
      (λ v j e. index_map_sound to_list v j (or_raise-eq-ok _ key_error e)) from_list ps

-- `permutation` succeeds where every name of `from_list` is in `to_list`.
pub permutation_total :
    (from_list to_list : List String)
    → All (λ v. mem v to_list ≡ true) from_list
    → (ps : List ℕ) × (permutation from_list to_list ≡ ok ps)
unfolding permutation
permutation_total [] to_list h = ([], refl)
permutation_total (v ∷ from) to_list h =
    let (j, e) = index_map_complete to_list v h.0 in
    let (ps, rest) = permutation_total from to_list h.1 in (j ∷ ps, rw (e, rest))

-- A name that is not in `to_list` makes `permutation` raise `KeyError`.
pub permutation_key_error :
    (known : List String) (v : String) (more to_list : List String)
    → mem v to_list ≡ false
    → permutation (known ++ v ∷ more) to_list ≡ raise key_error
unfolding permutation
permutation_key_error [] v more to_list h = rw (index_map-none to_list v h)
permutation_key_error (x ∷ known) v more to_list h =
    elim (Option-cases (lookup x (index_map to_list))) [
      | inl missing ↦ rw missing
      | inr (j, e) ↦ rw (e, permutation_key_error known v more to_list h)
    ]

-- Position `i` of the result is the position in `to_list` of the name at position `i`.
pub permutation-at :
    (to_list : List String) (from_list : List String) (ps : List ℕ) (i : ℕ) (v : String)
    → map (get_elem? to_list) ps ≡ map some from_list
    → get_elem? from_list i ≡ some v
    → (j : ℕ) × (get_elem? ps i ≡ some j) × (get_elem? to_list j ≡ some v)
permutation-at to_list [] ps i v h e = absurd (cc)
permutation-at to_list (x ∷ from) [] i v h e = absurd (cc)
permutation-at to_list (x ∷ from) (p ∷ ps) zero v h e = (p, refl, cc)
permutation-at to_list (x ∷ from) (p ∷ ps) (suc i) v h e = permutation-at to_list from ps i v (cc) e

-- Translating there and back gives each position again, for lists with no name twice.
pub permutation-roundtrip :
    (xs ys : List String) (ps qs : List ℕ)
    → IsUnique xs
    → permutation xs ys ≡ ok ps
    → permutation ys xs ≡ ok qs
    → (i : ℕ) (v : String) → get_elem? xs i ≡ some v
    → (j : ℕ) × (get_elem? ps i ≡ some j) × (get_elem? qs j ≡ some i)
permutation-roundtrip xs ys ps qs u there back i v e =
    let (j, at, in_ys) = permutation-at ys xs ps i v (permutation_sound xs ys ps there) e in
    let (k, at', in_xs) = permutation-at xs ys qs j v (permutation_sound ys xs qs back) in_ys in
    (j, at, rw (at', get_elem?-injective xs k i v u in_xs e))

pub permutation-length :
    (from_list to_list : List String) (ps : List ℕ)
    → permutation from_list to_list ≡ ok ps
    → length ps ≡ length from_list
unfolding permutation
permutation-length from_list to_list ps = map_result-length _ from_list ps

in_range_of :
    (ids names : List String) (ks : List ℕ)
    → map (get_elem? ids) ks ≡ map some names
    → All (λ k. k < length ids) ks
in_range_of ids names [] h = tt
in_range_of ids [] (k ∷ ks) h = absurd (cc)
in_range_of ids (v ∷ names) (k ∷ ks) h =
    (lt_of_get_elem? ids k v (cc), in_range_of ids names ks (cc))

-- The places that are found are places of the second list.
pub permutation-in_range :
    (names ids : List String) (ks : List ℕ)
    → permutation names ids ≡ ok ks
    → All (λ k. k < length ids) ks
permutation-in_range names ids ks e = in_range_of ids names ks (permutation_sound names ids ks e)
