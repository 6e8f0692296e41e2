-- ===== src/Floats.antt =====
-- Python's `float`, numpy's floats and `complex`: the arithmetic that the program calls and does not
-- implement. No law of it is assumed except where a theorem names one.
use sgidal_example.Prelude.{ℕ, Bool, String}

pub record Floats : Type 1 where
  pub Float : Type 0
  pub plus : Float → Float → Float
  pub minus : Float → Float → Float
  pub times : Float → Float → Float
  pub over : Float → Float → Float
  pub neg : Float → Float
  pub sqrt : Float → Float
  pub abs : Float → Float
  -- `str(x)`
  pub show : Float → String
  -- `float(n)`, and the decimal literal n / d
  pub from_ℕ : ℕ → Float
  pub literal : ℕ → ℕ → Float
  pub lt : Float → Float → Bool
  pub le : Float → Float → Bool
  pub eq : Float → Float → Bool

-- `complex(re, im)`
abbrev pub Complex : Floats → Type 0
Complex f = f.Float × f.Float
