-- ===== src/Omoo/Tests.antt =====
-- A step of the online optimisation with two PV systems.
use sgidal_example.Prelude.{ok, ℕ, ◌≡◌, refl, false, List, [], ◌∷◌, arith}
use sgidal_example.Samples.{whole}
use sgidal_example.Lindistflow.Greatest.{IsOrdered}
use sgidal_example.Omoo.{PvRow, Step, pv_cost}
use sgidal_example.Omoo.Bounded.{HasRoom}
use sgidal_example.Omoo.SetPoints.{AreInBounds, pv_cost-AreInBounds}

ordered : IsOrdered whole
ordered = record {
  irreflexive = λ x. ground arith;
  transitive = λ x y z p q. ground (arith, p, q);
  asymmetric = λ x y p. ground (arith, p);
}

abbrev frame : List (PvRow whole)
frame = record { avai = 8; kvar_rated = 9 } ∷ record { avai = 0; kvar_rated = 5 } ∷ []

abbrev matrix : List (List ℕ)
matrix = (1 ∷ 2 ∷ 3 ∷ []) ∷ (4 ∷ 5 ∷ 6 ∷ []) ∷ []

abbrev dot : List ℕ → List ℕ → ℕ
dot xs ys = 1

pv_cost-AreInBounds_example :
    (s : Step whole) × (pv_cost dot matrix matrix 3
        (1 ∷ 1 ∷ [])
        (0 ∷ 0 ∷ [])
        1
        1
        (2 ∷ 0 ∷ [])
        frame
        (0 ∷ 0 ∷ [])
        (0 ∷ 0 ∷ [])
        (0 ∷ 0 ∷ [])
        (0 ∷ 0 ∷ [])
      ≡ ok s)
    × AreInBounds whole ordered 1 frame s.pk_current s.qk_current
pv_cost-AreInBounds_example =
    pv_cost-AreInBounds whole ordered dot 1 3 matrix matrix (1 ∷ 1 ∷ []) (0 ∷ 0 ∷ []) 1 (2 ∷ 0 ∷ [])
      frame (0 ∷ 0 ∷ []) (0 ∷ 0 ∷ []) (0 ∷ 0 ∷ []) (0 ∷ 0 ∷ []) (omega arith, (omega arith, tt))
      (omega arith, (omega arith, tt)) refl refl refl refl refl refl refl refl
      (omega arith, (omega arith, tt)) (room 8 9 refl, (room 0 5 refl, tt))
  where
    room : (a c : ℕ) → whole.lt a 0 ≡ false → HasRoom whole ordered a c
    room a c h = record {
      available = h;
      fifths = ground arith;
      shares = ground arith;
      share_above = ground arith;
      share_below = ground arith;
    }
