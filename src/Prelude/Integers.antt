-- ===== src/Prelude/Integers.antt =====
-- Python's `int` where it may be negative, over the native numbers.
use Prim.Native.Nat.{ℕ, suc, ◌+◌, ◌-◌}
use sgidal_example.Prelude.Tests.{leb, if◌then◌else◌}

-- `negsuc n` is -(n + 1).
pub data ℤ : Type 0 where
  pos : ℕ → ℤ
  negsuc : ℕ → ℤ

-- a - b, as an integer.
abbrev pub sub_ℕ : ℕ → ℕ → ℤ
sub_ℕ a b = if leb b a then pos (a - b) else negsuc (b - a - 1)

-- a + k for a number a.
abbrev pub offset : ℕ → ℤ → ℤ
offset a (pos k) = pos (a + k)
offset a (negsuc k) = sub_ℕ a (suc k)
