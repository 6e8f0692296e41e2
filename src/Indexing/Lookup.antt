-- ===== src/Indexing/Lookup.antt =====
-- What the index map of a list holds.
use text.Mathlib.Text.{◌==◌ as str_eq}
use sgidal_example.Prelude.{
  ℕ, zero, suc, ◌+◌, String, ◌≡◌, refl, ap, ◌⊎◌, inl, inr, Bool, true, false, Option, none, some,
  List, [], ◌∷◌, arith, get_elem?, Dict, insert, IsUnique, lookup, mem, lookup-insert, eq_iff,
  Bool-cases,
}
use sgidal_example.Indexing.{enumerate_into, index_map}

-- An entry is an old one, or the position of an occurrence.
lookup-enumerate_into :
    (i : ℕ) (xs : List String) (d : Dict ℕ) (v : String) (j : ℕ)
    → lookup v (enumerate_into i xs d) ≡ some j
    → (lookup v d ≡ some j) ⊎ ((k : ℕ) × (j ≡ i + k) × (get_elem? xs k ≡ some v))
unfolding enumerate_into
lookup-enumerate_into i [] d v j h = inl h
lookup-enumerate_into i (x ∷ xs) d v j h =
    elim (lookup-enumerate_into (suc i) xs (insert x i d) v j h) [
      | inl old ↦ elim (Bool-cases (str_eq x v)) [
        | inl same ↦ inr (0, ground (arith, lookup-insert x v i d), ap some ((eq_iff x v).0 same))
        | inr other ↦ inl (ground (arith, lookup-insert x v i d))
      ]
      | inr (k, at, found) ↦ inr (suc k, omega arith, found)
    ]

-- What the index map holds for a name is a position of that name.
pub index_map_sound :
    (xs : List String) (v : String) (j : ℕ)
    → lookup v (index_map xs) ≡ some j
    → get_elem? xs j ≡ some v
unfolding index_map
index_map_sound xs v j h = elim (lookup-enumerate_into 0 xs [] v j h) [
  | inl old ↦ absurd (cc)
  | inr (k, at, found) ↦ ground arith
]

-- An entry that is there stays, or is replaced by another.
enumerate_into-keeps :
    (i : ℕ) (xs : List String) (d : Dict ℕ) (v : String) (k : ℕ)
    → lookup v d ≡ some k
    → (j : ℕ) × (lookup v (enumerate_into i xs d) ≡ some j)
unfolding enumerate_into
enumerate_into-keeps i [] d v k h = (k, h)
enumerate_into-keeps i (x ∷ xs) d v k h = elim (Bool-cases (str_eq x v)) [
  | inl same ↦
      enumerate_into-keeps (suc i) xs (insert x i d) v i (ground (arith, lookup-insert x v i d))
  | inr other ↦
      enumerate_into-keeps (suc i) xs (insert x i d) v k (ground (arith, lookup-insert x v i d))
]

enumerate_into_complete :
    (i : ℕ) (xs : List String) (d : Dict ℕ) (v : String)
    → mem v xs ≡ true
    → (j : ℕ) × (lookup v (enumerate_into i xs d) ≡ some j)
unfolding enumerate_into
enumerate_into_complete i [] d v h = absurd (cc)
enumerate_into_complete i (x ∷ xs) d v h = elim (Bool-cases (str_eq x v)) [
  | inl same ↦
      enumerate_into-keeps (suc i) xs (insert x i d) v i (ground (arith, lookup-insert x v i d))
  | inr other ↦ enumerate_into_complete (suc i) xs (insert x i d) v (ground arith)
]

-- Every name of the list is a key of the index map.
pub index_map_complete :
    (xs : List String) (v : String) → mem v xs ≡ true → (j : ℕ) × (lookup v (index_map xs) ≡ some j)
unfolding index_map
index_map_complete xs v h = enumerate_into_complete 0 xs [] v h

pub mem_of_get_elem? :
    (xs : List String) (i : ℕ) (v : String) → get_elem? xs i ≡ some v → mem v xs ≡ true
mem_of_get_elem? [] i v h = cc
mem_of_get_elem? (x ∷ xs) zero v h = ground (arith, eq_iff x v)
mem_of_get_elem? (x ∷ xs) (suc i) v h = ground (arith, mem_of_get_elem? xs i v)

-- No other name is.
pub index_map-none :
    (xs : List String) (v : String) → mem v xs ≡ false → lookup v (index_map xs) ≡ none
index_map-none xs v h = go (lookup v (index_map xs)) refl
  where
    go : (o : Option ℕ) → lookup v (index_map xs) ≡ o → lookup v (index_map xs) ≡ none
    go none e = e
    go (some j) e = absurd (cc (mem_of_get_elem? xs j v (index_map_sound xs v j e)))

pub get_elem?-injective :
    (xs : List String) (i j : ℕ) (v : String)
    → IsUnique xs
    → get_elem? xs i ≡ some v
    → get_elem? xs j ≡ some v
    → i ≡ j
get_elem?-injective [] i j v u p q = cc
get_elem?-injective (x ∷ xs) zero zero v u p q = refl
get_elem?-injective (x ∷ xs) zero (suc j) v u p q = absurd (
    cc (
      mem_of_get_elem? xs j v q,
      ap (λ o. elim o as (λ _. Bool) [ none ↦ true | some w ↦ mem w xs ]) p,
      u.0,
    ))
get_elem?-injective (x ∷ xs) (suc i) zero v u p q = absurd (
    cc (
      mem_of_get_elem? xs i v p,
      ap (λ o. elim o as (λ _. Bool) [ none ↦ true | some w ↦ mem w xs ]) q,
      u.0,
    ))
get_elem?-injective (x ∷ xs) (suc i) (suc j) v u p q = ap suc (get_elem?-injective xs i j v u.1 p q)

-- In a list with no name twice each name has its own position in the index map.
pub index_map-get_elem? :
    (xs : List String) (i : ℕ) (v : String)
    → IsUnique xs
    → get_elem? xs i ≡ some v
    → lookup v (index_map xs) ≡ some i
index_map-get_elem? xs i v u h =
    let (j, e) = index_map_complete xs v (mem_of_get_elem? xs i v h) in
    rw e (ap some (get_elem?-injective xs j i v u (index_map_sound xs v j e) h))
