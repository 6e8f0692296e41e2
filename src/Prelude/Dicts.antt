-- ===== src/Prelude/Dicts.antt =====
-- Python's `dict` with string keys, in insertion order: a new key goes to the end, and a key that is
-- there keeps its place. A Python `set` of strings is the list of its elements, each once.
use Prim.Native.String.{String}
use mathlib.Core.Path.{◌≡◌, refl}
use mathlib.Core.Logic.{◌≢◌, ◌↔◌, inl, inr}
use mathlib.Core.Bool.{Bool, true, false, ◌&&◌, ◌||◌}
use mathlib.Core.Option.{Option, none, some}
use mathlib.Core.List.{List, [], ◌∷◌, ◌++◌}
use native.Mathlib.Omega.{arith}
use text.Mathlib.Text.{◌==◌ as str_eq}
use text.Mathlib.TextEquality.{eq_iff}
use sgidal_example.Prelude.Tests.{if◌then◌else◌, Option-cases, Bool-cases}
use sgidal_example.Prelude.Lists.{all, All}

abbrev pub Dict {ℓ} : Type ℓ → Type ℓ
Dict V = List (String × V)

module _ {ℓ} {V : Type ℓ} where
  -- `d.get(k)`
  abbrev pub lookup : String → Dict V → Option V
  lookup k [] = none
  lookup k ((j, v) ∷ d) = if str_eq j k then some v else lookup k d

  -- `k in d`
  abbrev pub has_key : String → Dict V → Bool
  has_key k [] = false
  has_key k ((j, v) ∷ d) = str_eq j k || has_key k d

  -- `d[k] = v`
  abbrev pub insert : String → V → Dict V → Dict V
  insert k v [] = (k, v) ∷ []
  insert k v ((j, w) ∷ d) = if str_eq j k then (j, v) ∷ d else (j, w) ∷ insert k v d

  -- `d.keys()`
  abbrev pub keys : Dict V → List String
  keys [] = []
  keys ((j, v) ∷ d) = j ∷ keys d

  pub lookup-insert :
      (k j : String) (v : V) (d : Dict V)
      → lookup j (insert k v d) ≡ (if str_eq k j then some v else lookup j d)
  lookup-insert k j v [] = refl
  lookup-insert k j v ((i, w) ∷ d) =
      ground (arith, eq_iff k j, eq_iff i k, eq_iff i j, lookup-insert k j v d)

  pub lookup-insert_self : (k : String) (v : V) (d : Dict V) → lookup k (insert k v d) ≡ some v
  lookup-insert_self k v d = ground (arith, lookup-insert k k v d, eq_iff k k)

  pub lookup-insert_ne :
      (k j : String) (v : V) (d : Dict V) → k ≢ j → lookup j (insert k v d) ≡ lookup j d
  lookup-insert_ne k j v d h = ground (arith, lookup-insert k j v d, eq_iff k j)

  pub has_key_of_lookup :
      (k : String) (v : V) (d : Dict V) → lookup k d ≡ some v → has_key k d ≡ true
  has_key_of_lookup k v [] h = cc
  has_key_of_lookup k v ((j, w) ∷ d) h = ground (arith, has_key_of_lookup k v d)

  lookup-none : (k : String) (d : Dict V) → lookup k d ≡ none → has_key k d ≡ false
  lookup-none k [] h = refl
  lookup-none k ((j, w) ∷ d) h = ground (arith, lookup-none k d)

  pub lookup_of_has_key :
      (k : String) (d : Dict V) → has_key k d ≡ true → (v : V) × (lookup k d ≡ some v)
  lookup_of_has_key k d h = elim (Option-cases (lookup k d)) [
    | inl e ↦ absurd (cc (h, lookup-none k d e))
    | inr found ↦ found
  ]

-- `x in xs`, for a list or a set
abbrev pub mem : String → List String → Bool
mem x [] = false
mem x (y ∷ ys) = str_eq y x || mem x ys

-- `s.add(x)`
abbrev pub add : String → List String → List String
add x [] = x ∷ []
add x (y ∷ ys) = if str_eq y x then y ∷ ys else y ∷ add x ys

-- `s == t` of two sets
abbrev pub set_eq : List String → List String → Bool
set_eq xs ys = all (λ x. mem x ys) xs && all (λ y. mem y xs) ys

pub mem-add : (x y : String) (ys : List String) → mem x (add y ys) ≡ (str_eq y x || mem x ys)
mem-add x y [] = refl
mem-add x y (z ∷ ys) = ground (arith, mem-add x y ys, eq_iff z y, eq_iff z x, eq_iff y x)

-- No name stands twice.
abbrev pub IsUnique : List String → Type 0
IsUnique [] = Unit
IsUnique (x ∷ xs) = (mem x xs ≡ false) × IsUnique xs

module _ {ℓ} {V : Type ℓ} where
  pub mem-keys-insert :
      (x k : String) (v : V) (d : Dict V)
      → mem x (keys (insert k v d)) ≡ (str_eq k x || mem x (keys d))
  mem-keys-insert x k v [] = refl
  mem-keys-insert x k v ((j, w) ∷ d) =
      ground (arith, mem-keys-insert x k v d, eq_iff j k, eq_iff j x, eq_iff k x)

  -- A dict keeps each key once.
  pub insert-IsUnique :
      (k : String) (v : V) (d : Dict V) → IsUnique (keys d) → IsUnique (keys (insert k v d))
  insert-IsUnique k v [] u = (refl, tt)
  insert-IsUnique k v ((j, w) ∷ d) u =
      ground (arith, mem-keys-insert j k v d, insert-IsUnique k v d u.1, eq_iff j k, eq_iff k j)

  pub mem-keys_of_lookup :
      (k : String) (v : V) (d : Dict V) → lookup k d ≡ some v → mem k (keys d) ≡ true
  mem-keys_of_lookup k v [] h = cc
  mem-keys_of_lookup k v ((j, w) ∷ d) h = ground (arith, mem-keys_of_lookup k v d)

  pub lookup_of_mem-keys :
      (k : String) (d : Dict V) → mem k (keys d) ≡ true → (v : V) × (lookup k d ≡ some v)
  lookup_of_mem-keys k [] h = absurd (cc)
  lookup_of_mem-keys k ((j, w) ∷ d) h = elim (Bool-cases (str_eq j k)) [
    | inl same ↦ (w, rw same)
    | inr other ↦ let (v, e) = lookup_of_mem-keys k d (ground arith) in (v, rw (other, e))
  ]

  -- A key that is not there goes to the end.
  pub keys-insert_new :
      (k : String) (v : V) (d : Dict V)
      → mem k (keys d) ≡ false
      → keys (insert k v d) ≡ keys d ++ k ∷ []
  keys-insert_new k v [] h = refl
  keys-insert_new k v ((j, w) ∷ d) h = ground (arith, keys-insert_new k v d)

pub mem-append : (x : String) (xs ys : List String) → mem x (xs ++ ys) ≡ (mem x xs || mem x ys)
mem-append x [] ys = refl
mem-append x (y ∷ xs) ys = ground (arith, mem-append x xs ys)

pub IsUnique-middle :
    (xs : List String) (y : String) (ys : List String) → IsUnique (xs ++ y ∷ ys) → mem y xs ≡ false
IsUnique-middle [] y ys u = refl
IsUnique-middle (x ∷ xs) y ys u =
    ground (arith, IsUnique-middle xs y ys u.1, mem-append x xs (y ∷ ys), eq_iff x y, eq_iff y x)

all-mem :
    (p : String) (xs ys : List String)
    → all (λ x. mem x ys) xs ≡ true
    → mem p xs ≡ true
    → mem p ys ≡ true
all-mem p [] ys h m = absurd (cc)
all-mem p (x ∷ xs) ys h m = elim (Bool-cases (str_eq x p)) [
  | inl same ↦ ground (arith, eq_iff x p)
  | inr other ↦ all-mem p xs ys (ground arith) (ground arith)
]

-- Equal sets have the same elements.
pub set_eq-mem :
    (p : String) (xs ys : List String) → set_eq xs ys ≡ true → (mem p xs ≡ true) ↔ (mem p ys ≡ true)
set_eq-mem p xs ys h = (all-mem p xs ys (ground arith), all-mem p ys xs (ground arith))

pub All-of_mem {ℓ} :
    {P : String → Type ℓ} (xs : List String) → ((x : String) → mem x xs ≡ true → P x) → All P xs
All-of_mem [] h = tt
All-of_mem (x ∷ xs) h =
    (h x (ground (arith, eq_iff x x)), All-of_mem xs (λ y m. h y (ground (arith, m))))

module _ {ℓ} {V : Type ℓ} where
  -- `f` done to `d[k]`, where the key is there.
  abbrev pub update : String → (V → V) → Dict V → Dict V
  update k f [] = []
  update k f ((j, v) ∷ d) = if str_eq j k then (j, f v) ∷ d else (j, v) ∷ update k f d

  pub keys-update : (k : String) (f : V → V) (d : Dict V) → keys (update k f d) ≡ keys d
  keys-update k f [] = refl
  keys-update k f ((j, v) ∷ d) = ground (arith, keys-update k f d)

  pub has_key-update :
      (k x : String) (f : V → V) (d : Dict V) → has_key x (update k f d) ≡ has_key x d
  has_key-update k x f [] = refl
  has_key-update k x f ((j, v) ∷ d) = ground (arith, has_key-update k x f d)

  pub has_key-insert :
      (k x : String) (v : V) (d : Dict V) → has_key x (insert k v d) ≡ (str_eq k x || has_key x d)
  has_key-insert k x v [] = refl
  has_key-insert k x v ((j, w) ∷ d) =
      ground (arith, has_key-insert k x v d, eq_iff j k, eq_iff j x, eq_iff k x)

  pub lookup-update :
      (k x : String) (f : V → V) (d : Dict V)
      → lookup x (update k f d) ≡ (
          if str_eq k x
          then (elim (lookup x d) as (λ _. Option V) [ none ↦ none | some v ↦ some (f v) ])
          else lookup x d)
  lookup-update k x f [] = ground arith
  lookup-update k x f ((j, v) ∷ d) =
      ground (arith, lookup-update k x f d, eq_iff j k, eq_iff j x, eq_iff k x)
