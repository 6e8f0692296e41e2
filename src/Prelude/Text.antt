-- ===== src/Prelude/Text.antt =====
-- Python's `str` operations, on native strings. Case folding covers ASCII.
use Prim.Native.Nat.{ℕ, zero, suc, ◌+◌, ◌*◌, ◌-◌, ◌/◌, ◌%◌, ◌<◌}
use Prim.Native.Char.{Char, code}
use Prim.Native.String.{String, ◌++◌ as append}
use mathlib.Core.Path.{◌≡◌, refl, ap, sym, ◌∙◌}
use mathlib.Core.Logic.{inl, inr}
use mathlib.Core.Bool.{Bool, true, false, ◌&&◌}
use mathlib.Core.Option.{Option, none, some}
use mathlib.Core.List.{List, [], ◌∷◌}
use native.Mathlib.Omega.{arith}
use text.Mathlib.Text.{◌==◌ as str_eq, find?}
use sgidal_example.Prelude.Tests.{ltb, leb, ◌==◌, if◌then◌else◌, Bool-cases}

-- `sub in s`, or `s.find(sub) != -1`
abbrev pub contains : String → String → Bool
contains s sub = elim (find? s sub) [ none ↦ false | some _ ↦ true ]

cons_head : Char → List String → List String
cons_head c [] = String.◌∷◌ c String.[] ∷ []
cons_head c (x ∷ xs) = String.◌∷◌ c x ∷ xs

split_code : ℕ → String → List String
split_code sep String.[] = String.[] ∷ []
split_code sep (String.◌∷◌ c s) =
    let rest = split_code sep s in if code c == sep then String.[] ∷ rest else cons_head c rest

-- `s.split(".")` and `s.split("_")`
unfoldable pub split_dot : String → List String
unfolding split_code cons_head
split_dot = split_code b'.'

unfoldable pub split_underscore : String → List String
unfolding split_code cons_head
split_underscore = split_code b'_'

-- `sep.join(xs)`
unfoldable pub join : String → List String → String
join sep [] = ""
join sep (x ∷ []) = x
join sep (x ∷ xs) = append x (append sep (join sep xs))

-- The character at the same place of `to` as `c` has in `from`.
translate : String → String → Char → Char
translate (String.◌∷◌ f from) (String.◌∷◌ t to) c =
    if code c == code f then t else translate from to c
translate _ _ c = c

map_chars : (Char → Char) → String → String
map_chars f String.[] = String.[]
map_chars f (String.◌∷◌ c s) = String.◌∷◌ (f c) (map_chars f s)

-- `s.upper()` and `s.lower()`
unfoldable pub upper : String → String
unfolding translate map_chars
upper = map_chars (translate "abcdefghijklmnopqrstuvwxyz" "ABCDEFGHIJKLMNOPQRSTUVWXYZ")

unfoldable pub lower : String → String
unfolding translate map_chars
lower = map_chars (translate "ABCDEFGHIJKLMNOPQRSTUVWXYZ" "abcdefghijklmnopqrstuvwxyz")

digit : ℕ → Char
digit d =
    if d == 0
    then "0"
    else if d == 1
    then "1"
    else if d == 2
    then "2"
    else if d == 3
    then "3"
    else if d == 4
    then "4"
    else if d == 5
    then "5"
    else if d == 6
    then "6"
    else if d == 7
    then "7"
    else if d == 8
    then "8"
    else "9"

-- The digits of `n` before `s`.
digits_before : ℕ → ℕ → String → String
digits_before zero n s = s
digits_before (suc fuel) n s =
    let more = digits_before fuel (n / 10) (String.◌∷◌ (digit (n % 10)) s) in
    if ltb n 10 then String.◌∷◌ (digit n) s else more

-- `str(n)`
unfoldable pub decimal : ℕ → String
unfolding digits_before digit
decimal n = digits_before (suc n) n ""

-- The number that the digits of a text spell after `acc`.
value : ℕ → String → ℕ
value acc String.[] = acc
value acc (String.◌∷◌ c s) = value (acc * 10 + (code c - 48)) s

code-digit : (d : ℕ) → d < 10 → code (digit d) - 48 ≡ d
unfolding digit
code-digit zero h = refl
code-digit (suc zero) h = refl
code-digit (suc (suc zero)) h = refl
code-digit (suc (suc (suc zero))) h = refl
code-digit (suc (suc (suc (suc zero)))) h = refl
code-digit (suc (suc (suc (suc (suc zero))))) h = refl
code-digit (suc (suc (suc (suc (suc (suc zero)))))) h = refl
code-digit (suc (suc (suc (suc (suc (suc (suc zero))))))) h = refl
code-digit (suc (suc (suc (suc (suc (suc (suc (suc zero)))))))) h = refl
code-digit (suc (suc (suc (suc (suc (suc (suc (suc (suc zero))))))))) h = refl
code-digit (suc (suc (suc (suc (suc (suc (suc (suc (suc (suc n)))))))))) h = absurd (omega arith)

value-digits_before :
    (fuel n : ℕ) (s : String) → n < fuel → value 0 (digits_before fuel n s) ≡ value n s
unfolding digits_before value
value-digits_before zero n s h = elim h [ ]
value-digits_before (suc fuel) n s h = elim (Bool-cases (ltb n 10)) [
  | inl small ↦ rw small (ap (λ d. value d s) (omega (arith, code-digit n (ground arith))))
  | inr large ↦ rw large (
      value-digits_before fuel (n / 10) (String.◌∷◌ (digit (n % 10)) s) (ground arith)
      ∙ ap (λ d. value d s) (omega (arith, code-digit (n % 10) (omega arith))))
]

-- Different numbers print differently.
pub decimal_injective : (m n : ℕ) → decimal m ≡ decimal n → m ≡ n
unfolding decimal value
decimal_injective m n h =
    sym (value-digits_before (suc m) m "" (omega arith))
    ∙ ap (value 0) h
    ∙ value-digits_before (suc n) n "" (omega arith)

texts :
    (split_dot "BUS1.2" ≡ "BUS1" ∷ "2" ∷ []) × (decimal 1203 ≡ "1203") × (upper "p1u.x" ≡ "P1U.X")
unfolding split_dot decimal upper
texts = (refl, refl, refl)

digits_value : ℕ → String → Option ℕ
digits_value acc String.[] = some acc
digits_value acc (String.◌∷◌ c s) =
    let rest = digits_value (acc * 10 + (code c - 48)) s in
    if leb 48 (code c) && leb (code c) 57 then rest else none

-- `int(s)` of a text of digits; nothing for any other text.
unfoldable pub parse_int : String → Option ℕ
unfolding digits_value
parse_int s = if str_eq s "" then none else digits_value 0 s
