-- ===== src/Lindistflow/Reading.antt =====
-- What is read of the solver's values: each place that is read is in range.
use sgidal_example.Prelude.{
  Bool-cases, length, get_elem?, All, get_elem?-lt, or_raise, Result, Dict, index_error, ok, ℕ, ◌+◌,
  ◌≤◌, ◌<◌, String, ◌≡◌, refl, inl, inr, some, List, [], ◌∷◌, arith, ◌>>=◌,
}
use sgidal_example.Floats.{Floats}
use sgidal_example.Area.{AreaBus}
use sgidal_example.Lindistflow.Build.{Sizes, n_bus, variable_number, n_qdg}
use sgidal_example.Lindistflow.Limits.{limit_at}
use sgidal_example.Lindistflow.Solution.{
  three_at, flow_pair, line_flows, voltages_at, placed_voltages, bus_voltages, generation_output,
  control_variables,
}

-- A result that is a value.
abbrev pub Succeeds : {A : Type 0} → Result A → Type 0
Succeeds {A = A} r = (a : A) × (r ≡ ok a)

pub then-Succeeds :
    {A B : Type 0} (r : Result A) (f : A → Result B)
    → Succeeds r
    → ((a : A) → Succeeds (f a))
    → Succeeds (r >>= f)
then-Succeeds r f (a, e) h = let (b, e') = h a in (b, rw (e) e')

pub get_elem?-Succeeds :
    {A : Type 0} (xs : List A) (k : ℕ)
    → k < length xs
    → Succeeds (or_raise (get_elem? xs k) index_error)
get_elem?-Succeeds xs k h = let (a, e) = get_elem?-lt xs k h in (a, rw (e) refl)

pub three_at-Succeeds :
    {A : Type 0} (xs : List A) (i j k : ℕ)
    → i < length xs
    → j < length xs
    → k < length xs
    → Succeeds (three_at xs i j k)
unfolding three_at
three_at-Succeeds xs i j k h h' h'' = then-Succeeds _ _ (get_elem?-Succeeds xs i h) (λ a.
    then-Succeeds _ _ (get_elem?-Succeeds xs j h')
      (λ b. then-Succeeds _ _ (get_elem?-Succeeds xs k h'') (λ c. ((a, b, c), refl))))

module _ (F : Floats) where
  flow_pair-Succeeds :
      (xs : List F.Float) (p q : ℕ) → p < length xs → q < length xs → Succeeds (flow_pair F xs p q)
  unfolding flow_pair
  flow_pair-Succeeds xs p q h h' =
      then-Succeeds _ _ (get_elem?-Succeeds xs p h)
        (λ re. then-Succeeds _ _ (get_elem?-Succeeds xs q h') (λ im. (_, refl)))

  module _ (z : Sizes) (xs : List F.Float) (whole : length xs ≡ variable_number z) where
    pub line_flows-Succeeds :
        (names : List String) (is : List ℕ) (acc : Dict (Dict (F.Float × F.Float)))
        → All (λ i. i < length names × i < z.nbranch_abc) is
        → Succeeds (line_flows F z xs names is acc)
    unfolding line_flows
    line_flows-Succeeds names [] acc h = (acc, refl)
    line_flows-Succeeds names (i ∷ rest) acc ((named, inside), others) =
        then-Succeeds _ _ (get_elem?-Succeeds names i named) (λ name.
          then-Succeeds _ _ (flow_pair-Succeeds xs _ _ (omega arith) (omega arith)) (λ a.
            then-Succeeds _ _ (flow_pair-Succeeds xs _ _ (omega arith) (omega arith)) (λ b.
              then-Succeeds _ _ (flow_pair-Succeeds xs _ _ (omega arith) (omega arith))
                (λ c. line_flows-Succeeds names rest _ others))))

    voltages_at-Succeeds : (k : ℕ) → k < z.nbus_abc → Succeeds (voltages_at F z xs k)
    unfolding voltages_at
    voltages_at-Succeeds k inside =
        then-Succeeds _ _ (three_at-Succeeds xs _ _ _ (omega arith) (omega arith) (omega arith))
          (λ v. (_, refl))

    pub placed_voltages-Succeeds :
        (names : List String) (ks : List ℕ) (acc : Dict (Dict F.Float))
        → All (λ k. k < length names × k < z.nbus_abc) ks
        → Succeeds (placed_voltages F z xs names ks acc)
    unfolding placed_voltages
    placed_voltages-Succeeds names [] acc h = (acc, refl)
    placed_voltages-Succeeds names (k ∷ rest) acc ((named, inside), others) =
        then-Succeeds _ _ (get_elem?-Succeeds names k named) (λ name.
          then-Succeeds _ _ (voltages_at-Succeeds k inside)
            (λ v. placed_voltages-Succeeds names rest _ others))

    pub bus_voltages-Succeeds :
        (d : Dict (AreaBus F)) (acc : Dict (Dict F.Float))
        → All (λ p. p.1.idx < z.nbus_abc) d
        → Succeeds (bus_voltages F z xs d acc)
    unfolding bus_voltages
    bus_voltages-Succeeds [] acc h = (acc, refl)
    bus_voltages-Succeeds ((key, b) ∷ rest) acc (inside, others) =
        then-Succeeds _ _ (voltages_at-Succeeds b.idx inside)
          (λ v. bus_voltages-Succeeds rest _ others)

    pub control_variables-Succeeds :
        (first : ℕ) (d : Dict (AreaBus F)) (acc : Dict (Dict F.Float))
        → first ≤ n_qdg z
        → All (λ p. p.1.idx < z.nbus_abc) d
        → Succeeds (control_variables F z xs (ok first) d acc)
    unfolding control_variables
    control_variables-Succeeds first [] acc low h = (acc, refl)
    control_variables-Succeeds first ((key, b) ∷ rest) acc low (inside, others) =
        then-Succeeds _ _ (three_at-Succeeds xs _ _ _ (omega arith) (omega arith) (omega arith))
          (λ v. control_variables-Succeeds first rest _ low others)

    pub generation_output-Succeeds :
        (limits : List F.Float) (first : ℕ) (ks : List ℕ)
        → first ≤ n_qdg z
        → All (λ k. k < length limits × k < n_bus z) ks
        → Succeeds (generation_output F z (some limits) xs (ok first) ks)
    unfolding generation_output limit_at
    generation_output-Succeeds limits first [] low h = ([], refl)
    generation_output-Succeeds limits first (k ∷ rest) low ((known, inside), others) =
        then-Succeeds _ _ (get_elem?-Succeeds limits k known) (λ limit.
          elim (Bool-cases (F.eq limit (F.from_ℕ 0))) [
            | inl zero_limit ↦
                rw (zero_limit) (generation_output-Succeeds limits first rest low others)
            | inr above ↦ rw (above) (
                then-Succeeds _ _ (get_elem?-Succeeds xs (k + first) (omega arith)) (λ v.
                  then-Succeeds _ _ (generation_output-Succeeds limits first rest low others)
                    (λ more. (_, refl))))
          ])
