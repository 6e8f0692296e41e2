-- ===== src/Indexing/Tests.antt =====
-- The theorems on positions at a small list of nodes.
use sgidal_example.Prelude.{
  ℕ, String, ◌≡◌, refl, some, List, [], ◌∷◌, map, raise, key_error, get_elem?,
}
use sgidal_example.Indexing.{index_map, permutation}
use sgidal_example.Indexing.Permutation.{
  permutation_sound, permutation-roundtrip, permutation_key_error,
}

abbrev old_order : List String
old_order = "A.1" ∷ "B.1" ∷ "C.1" ∷ []

abbrev new_order : List String
new_order = "C.1" ∷ "A.1" ∷ "B.1" ∷ []

permutation_sound_example : map (get_elem? old_order) (2 ∷ 0 ∷ 1 ∷ []) ≡ map some new_order
unfolding permutation index_map
permutation_sound_example = permutation_sound new_order old_order (2 ∷ 0 ∷ 1 ∷ []) refl

permutation-roundtrip_example :
    (j : ℕ) × (get_elem? {A = ℕ} (2 ∷ 0 ∷ 1 ∷ []) 1 ≡ some j)
    × (get_elem? {A = ℕ} (1 ∷ 2 ∷ 0 ∷ []) j ≡ some 1)
unfolding permutation index_map
permutation-roundtrip_example =
    permutation-roundtrip new_order old_order (2 ∷ 0 ∷ 1 ∷ []) (1 ∷ 2 ∷ 0 ∷ [])
      (refl, (refl, (refl, tt))) refl refl 1 "A.1" refl

permutation_key_error_example : permutation ("A.1" ∷ "D.1" ∷ []) old_order ≡ raise key_error
permutation_key_error_example = permutation_key_error ("A.1" ∷ []) "D.1" [] old_order refl
