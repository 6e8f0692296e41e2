-- ===== src/Lindistflow/Stored.antt =====
-- A loop that stores one result for each key of a dictionary.
use sgidal_example.Prelude.{
  Bool-cases, All, bind_ok, ok_injective, Result, Dict, lookup, insert, keys, lookup-insert_self,
  lookup-insert_ne, mem, IsUnique, mem-keys_of_lookup, ok, String, ◌≡◌, sym, ap, ◌∙◌, inl, inr,
  false, some, [], ◌∷◌, arith, str_eq, eq_iff, ◌>>=◌,
}

abbrev pub store_all : {A V : Type 0} → (A → Result V) → Dict A → Dict V → Result (Dict V)
store_all f [] acc = ok acc
store_all f ((key, b) ∷ rest) acc = f b >>= λ v. store_all f rest (insert key v acc)

module _ {A V : Type 0} (f : A → Result V) where
  store_all-keeps :
      (key : String) (d : Dict A) (acc r : Dict V)
      → mem key (keys d) ≡ false
      → store_all f d acc ≡ ok r
      → lookup key r ≡ lookup key acc
  store_all-keeps key [] acc r new e = ap (lookup key) (sym (ok_injective e))
  store_all-keeps key ((k, b) ∷ rest) acc r new e =
      let (v, got, others) = bind_ok (f b) (λ v. store_all f rest (insert k v acc)) e in
      let kept = store_all-keeps key rest (insert k v acc) r (ground arith) others in
      kept ∙ lookup-insert_ne k key v acc (λ same. ground (arith, same, new, eq_iff k key))

  -- With each key once, what stands under a key is what its entry gives.
  pub store_all-stored :
      (d : Dict A) (acc r : Dict V)
      → IsUnique (keys d)
      → store_all f d acc ≡ ok r
      → (key : String) (b : A) → lookup key d ≡ some b
      → (v : V) × (f b ≡ ok v) × (lookup key r ≡ some v)
  store_all-stored [] acc r u e key b at = absurd (cc)
  store_all-stored ((k, b') ∷ rest) acc r u e key b at =
      let (v, got, others) = bind_ok (f b') (λ v. store_all f rest (insert k v acc)) e in
      elim (Bool-cases (str_eq k key)) [
        | inl same ↦
            let kept =
              store_all-keeps k rest (insert k v acc) r u.0 others ∙ lookup-insert_self k v acc in
            (v, ground (arith, at, same, got), ground (arith, same, kept, eq_iff k key))
        | inr other ↦
            store_all-stored rest (insert k v acc) r u.1 others key b (ground (arith, at, other))
      ]

-- What holds of each entry that is looked up holds of all, with each key once.
pub All-of_lookup :
    {A : Type 0} (P : String × A → Type 0) (d : Dict A)
    → IsUnique (keys d)
    → ((key : String) (b : A) → lookup key d ≡ some b → P (key, b))
    → All P d
All-of_lookup P [] u h = tt
All-of_lookup P ((k, b) ∷ rest) u h = (
  h k b (ground (arith, eq_iff k k)),
  All-of_lookup P rest u.1 (λ key c at.
      let there = mem-keys_of_lookup key c rest at in
      h key c (ground (arith, at, there, u.0, eq_iff k key))),
)
