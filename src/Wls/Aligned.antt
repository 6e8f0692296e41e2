-- ===== src/Wls/Aligned.antt =====
-- The residuals, part by part.
use sgidal_example.Prelude.{
  length, All, length-append, length-map, take, drop, zip_with, ok, ℕ, ◌+◌, ◌<◌, ◌≡◌, refl, sym,
  ◌∙◌, subst, List, ◌++◌, map, arith,
}
use sgidal_example.Floats.{Floats, Complex}
use sgidal_example.Wls.Arrays.{Numpy, c_mul}
use sgidal_example.Wls.Model.{Problem, phasors, powers, estimated_pqv, residual}
use sgidal_example.Wls.Taken.{
  IsTaken, take_at-IsTaken, length-zip_with, broadcast-even, length-take-add, length-drop-add,
}
use sgidal_example.Wls.Shape.{IsPosed}
use sgidal_example.Wls.Jacobian.{length-phasors, length-currents}

module _ {F : Floats} (np : Numpy F) where
  pub length-powers :
      (n : ℕ) (y : List (List (Complex F))) (ds vs : List F.Float)
      → length y ≡ n
      → length ds ≡ n
      → length vs ≡ n
      → length (powers np y ds vs) ≡ n
  unfolding powers
  length-powers n y ds vs h k l =
      let counted = length-currents np y (phasors np ds vs) ∙ h in
      length-zip_with (c_mul F) _ _ (length-phasors np n ds vs k l ∙ sym counted) ∙ counted

  -- The three parts of the estimate.
  pub record IsEstimate (p : Problem F) (x h1 h2 h3 : List F.Float) : Type 0 where
    pub magnitudes : IsTaken (drop p.num_node x) p.known_v h1
    pub real_powers :
        IsTaken
          (map (λ c. c.0) (powers np p.y (take p.num_node x) (drop p.num_node x)))
          p.known_p
          h2
    pub reactive_powers :
        IsTaken
          (map (λ c. c.1) (powers np p.y (take p.num_node x) (drop p.num_node x)))
          p.known_q
          h3
    pub differences : residual np p x ≡ ok (zip_with F.minus p.z ((h1 ++ h2) ++ h3))
    pub as_many : length p.z ≡ length ((h1 ++ h2) ++ h3)

  pub residual-IsEstimate :
      (p : Problem F) (x : List F.Float)
      → IsPosed p
      → length x ≡ p.num_node + p.num_node
      → (h1 h2 h3 : List F.Float) × IsEstimate p x h1 h2 h3
  unfolding residual estimated_pqv
  residual-IsEstimate p x posed h =
      let n = p.num_node in
      let ds = take n x in
      let vs = drop n x in
      let s = powers np p.y ds vs in
      let counted : length s ≡ n =
        length-powers n p.y ds vs (posed.square).0 (length-take-add n n x h)
          (length-drop-add n n x h) in
      let within : (m : ℕ) → m ≡ n → (ks : List ℕ) → All (λ k. k < n) ks → All (λ k. k < m) ks =
        λ (m : ℕ) e (ks : List ℕ) h. subst (λ i. All (λ k. k < i) ks) (sym e) h in
      let (h1, t1) =
        take_at-IsTaken vs p.known_v (within _ (length-drop-add n n x h) p.known_v posed.nodes_v) in
      let (h2, t2) =
        take_at-IsTaken (map (λ c. c.0) s) p.known_p
          (within _ (length-map (λ c. c.0) s ∙ counted) p.known_p posed.nodes_p) in
      let (h3, t3) =
        take_at-IsTaken (map (λ c. c.1) s) p.known_q
          (within _ (length-map (λ c. c.1) s ∙ counted) p.known_q posed.nodes_q) in
      let even : length p.z ≡ length ((h1 ++ h2) ++ h3) = omega (
        arith,
        posed.measured,
        length-append (h1 ++ h2) h3,
        length-append h1 h2,
        t1.as_many,
        t2.as_many,
        t3.as_many,
      ) in
      (
        h1,
        h2,
        h3,
        record {
          magnitudes = t1;
          real_powers = t2;
          reactive_powers = t3;
          differences =
              rw (t1.taken, t2.taken, t3.taken, broadcast-even F.minus p.z ((h1 ++ h2) ++ h3) even)
                refl;
          as_many = even;
        },
      )
