-- ===== src/Wls/Residuals.antt =====
-- Each residual compares a measurement with the estimate at the node that it names.
use sgidal_example.Prelude.{
  length, get_elem?, length-append, lt_of_get_elem?, get_elem?-lt, length-map, take, drop, zip_with,
  ok, ℕ, ◌+◌, ◌<◌, String, ◌≡◌, sym, ◌∙◌, subst, some, List, ◌++◌, arith,
}
use sgidal_example.Floats.{Floats, Complex}
use sgidal_example.Recorder.{Measurement}
use sgidal_example.Wls.Arrays.{Numpy}
use sgidal_example.Wls.Model.{Problem, powers, residual}
use sgidal_example.Wls.Estimator.{Topology, get_y, problem_of}
use sgidal_example.Wls.Taken.{
  length-zip_with, length-take-add, length-drop-add, get_elem?-zip_with, get_elem?-map,
  get_elem?-append_left, get_elem?-append_right,
}
use sgidal_example.Wls.Shape.{HasShape}
use sgidal_example.Wls.Posed.{IsWhole, IsProblem, with_base, injection, problem_of-IsProblem}
use sgidal_example.Wls.Aligned.{IsEstimate, residual-IsEstimate, length-powers}

-- What is measured, in the order of the residuals.
pub data Quantity : Type 0 where
  magnitude real_power reactive_power : Quantity

module _ {F : Floats} where
  abbrev pub measurement_of :
      Quantity → Measurement F → Measurement F → Measurement F → Measurement F
  measurement_of magnitude p q v = v
  measurement_of real_power p q v = p
  measurement_of reactive_power p q v = q

  -- The place of the first residual of a quantity.
  abbrev pub start_of : Quantity → Measurement F → Measurement F → ℕ
  start_of magnitude p v = 0
  start_of real_power p v = length v.ids
  start_of reactive_power p v = length v.ids + length p.ids

  abbrev known_of : Quantity → Problem F → List ℕ
  known_of magnitude problem = problem.known_v
  known_of real_power problem = problem.known_p
  known_of reactive_power problem = problem.known_q

module _ (F : Floats) where
  -- A measured value less its estimate, in the units of the base values.
  abbrev pub difference : Quantity → F.Float → F.Float → F.Float → F.Float → Complex F → F.Float
  difference magnitude base_power a b m s = F.minus (F.over a b) m
  difference real_power base_power a b m s = F.minus (F.over (F.neg a) base_power) s.0
  difference reactive_power base_power a b m s = F.minus (F.over (F.neg a) base_power) s.1

module _ {A : Type 0} where
  at_left :
      (xs ys zs : List A) (j : ℕ) (a : A)
      → get_elem? xs j ≡ some a
      → get_elem? ((xs ++ ys) ++ zs) j ≡ some a
  at_left xs ys zs j a h =
      get_elem?-append_left (xs ++ ys) zs j a (get_elem?-append_left xs ys j a h)

  at_middle :
      (n : ℕ) (xs ys zs : List A) (j : ℕ) (a : A)
      → length xs ≡ n
      → get_elem? ys j ≡ some a
      → get_elem? ((xs ++ ys) ++ zs) (n + j) ≡ some a
  at_middle n xs ys zs j a e h =
      get_elem?-append_left (xs ++ ys) zs (n + j) a
        (subst (λ m. get_elem? (xs ++ ys) (m + j) ≡ some a) e (get_elem?-append_right xs ys j ∙ h))

  at_right :
      (n : ℕ) (xs ys zs : List A) (j : ℕ) (a : A)
      → length (xs ++ ys) ≡ n
      → get_elem? zs j ≡ some a
      → get_elem? ((xs ++ ys) ++ zs) (n + j) ≡ some a
  at_right n xs ys zs j a e h =
      subst (λ m. get_elem? ((xs ++ ys) ++ zs) (m + j) ≡ some a) e
        (get_elem?-append_right (xs ++ ys) zs j ∙ h)

module _ {F : Floats} (np : Numpy F) (tol base_power : F.Float) where
  module _ (topology : Topology F) (p q v : Measurement F) (problem : Problem F)
      (posed : IsProblem np tol base_power topology p q v problem) (x h1 h2 h3 : List F.Float)
      (estimate : IsEstimate np problem x h1 h2 h3) (many_v : length v.values ≡ length v.ids)
      (many_p : length p.values ≡ length p.ids) where
    many_bases : length v.values ≡ length posed.bases
    many_bases = many_v ∙ sym (posed.found_v).as_many ∙ sym (posed.taken).as_many

    many_zv : length (zip_with F.over v.values posed.bases) ≡ length v.ids
    many_zv = length-zip_with F.over v.values posed.bases many_bases ∙ sym many_bases ∙ many_v

    many_zp : length (injection np tol base_power p.values) ≡ length p.ids
    many_zp = length-map _ p.values ∙ many_p

    many_h1 : length h1 ≡ length v.ids
    many_h1 = (estimate.magnitudes).as_many ∙ (posed.found_v).as_many

    many_h2 : length h2 ≡ length p.ids
    many_h2 = (estimate.real_powers).as_many ∙ (posed.found_p).as_many

    -- The residual of a measurement, where its parts are known.
    at_place :
        (c : Quantity) (j k : ℕ) (a b m : F.Float) (s : Complex F)
        → get_elem? (measurement_of c p q v).values j ≡ some a
        → get_elem? topology.base_voltages k ≡ some b
        → get_elem? (drop problem.num_node x) k ≡ some m
        → get_elem? (powers np problem.y (take problem.num_node x) (drop problem.num_node x)) k
          ≡ some s
        → get_elem? (known_of c problem) j ≡ some k
        → get_elem? (zip_with F.minus problem.z ((h1 ++ h2) ++ h3)) (start_of c p v + j)
          ≡ some (difference F c base_power a b m s)
    at_place magnitude j k a b m s ha hb hm hs at =
        let zv = zip_with F.over v.values posed.bases in
        let zp = injection np tol base_power p.values in
        let zq = injection np tol base_power q.values in
        rw posed.values (
          subst
            (λ i.
              get_elem? (zip_with F.minus ((zv ++ zp) ++ zq) ((h1 ++ h2) ++ h3)) i
              ≡ some (F.minus (F.over a b) m))
            (let e : j ≡ 0 + j = omega arith in e)
            (get_elem?-zip_with F.minus ((zv ++ zp) ++ zq) ((h1 ++ h2) ++ h3) j (F.over a b) m
              (at_left zv zp zq j (F.over a b) (
                get_elem?-zip_with F.over v.values posed.bases j a b ha
                  ((posed.taken).each j k at ∙ hb)))
              (at_left h1 h2 h3 j m ((estimate.magnitudes).each j k at ∙ hm))))
    at_place real_power j k a b m s ha hb hm hs at =
        let zv = zip_with F.over v.values posed.bases in
        let zp = injection np tol base_power p.values in
        let zq = injection np tol base_power q.values in
        rw posed.values (
          get_elem?-zip_with F.minus ((zv ++ zp) ++ zq) ((h1 ++ h2) ++ h3) (length v.ids + j)
            (F.over (F.neg a) base_power) s.0
            (at_middle (length v.ids) zv zp zq j _ many_zv (get_elem?-map _ p.values j a ha))
            (at_middle (length v.ids) h1 h2 h3 j _ many_h1
              ((estimate.real_powers).each j k at ∙ get_elem?-map (λ c. c.0) _ k s hs)))
    at_place reactive_power j k a b m s ha hb hm hs at =
        let zv = zip_with F.over v.values posed.bases in
        let zp = injection np tol base_power p.values in
        let zq = injection np tol base_power q.values in
        let n = length v.ids + length p.ids in
        rw posed.values (
          get_elem?-zip_with F.minus ((zv ++ zp) ++ zq) ((h1 ++ h2) ++ h3) (n + j)
            (F.over (F.neg a) base_power) s.1
            (at_right n zv zp zq j _ (omega (arith, length-append zv zp, many_zv, many_zp))
              (get_elem?-map _ q.values j a ha))
            (at_right n h1 h2 h3 j _ (omega (arith, length-append h1 h2, many_h1, many_h2))
              ((estimate.reactive_powers).each j k at ∙ get_elem?-map (λ c. c.1) _ k s hs)))

  -- The place of a named measurement among the nodes.
  node_of :
      (c : Quantity) (topology : Topology F) (p q v : Measurement F) (problem : Problem F)
      → IsProblem np tol base_power topology p q v problem
      → (j : ℕ) (id : String) → get_elem? (measurement_of c p q v).ids j ≡ some id
      → (k : ℕ) × (get_elem? (known_of c problem) j ≡ some k) × (get_elem? topology.ids k ≡ some id)
  node_of magnitude topology p q v problem posed = (posed.found_v).named
  node_of real_power topology p q v problem posed = (posed.found_p).named
  node_of reactive_power topology p q v problem posed = (posed.found_q).named

  value_of :
      (c : Quantity) (p q v : Measurement F)
      → length p.values ≡ length p.ids
      → length q.values ≡ length q.ids
      → length v.values ≡ length v.ids
      → (j : ℕ) (id : String) → get_elem? (measurement_of c p q v).ids j ≡ some id
      → (a : F.Float) × (get_elem? (measurement_of c p q v).values j ≡ some a)
  value_of magnitude p q v hp hq hv j id h =
      get_elem?-lt v.values j (omega (arith, hv, lt_of_get_elem? v.ids j id h))
  value_of real_power p q v hp hq hv j id h =
      get_elem?-lt p.values j (omega (arith, hp, lt_of_get_elem? p.ids j id h))
  value_of reactive_power p q v hp hq hv j id h =
      get_elem?-lt q.values j (omega (arith, hq, lt_of_get_elem? q.ids j id h))

  -- For whole measurements of nodes, with a base voltage for each node and a square admittance
  -- matrix: the problem is set, and at every point with two values for each node `residual` returns.
  -- The residual at the place of a measurement, voltages before real and reactive powers, compares
  -- that measured value with the magnitude or the power that the point gives for the node of the
  -- same name.
  pub residual-difference :
      (topology : Topology F) (y : List (List (Complex F))) (p q v : Measurement F)
      (x : List F.Float)
      → length topology.ids ≡ length topology.base_voltages
      → get_y topology.admittance topology.ids ≡ ok y
      → HasShape (length topology.base_voltages) (length topology.base_voltages) y
      → IsWhole topology p
      → IsWhole topology q
      → IsWhole topology v
      → length x ≡ length topology.base_voltages + length topology.base_voltages
      → (c : Quantity) (j : ℕ) (id : String) → get_elem? (measurement_of c p q v).ids j ≡ some id
      → (problem : Problem F) × (r : List F.Float) × (k : ℕ) × (a b m : F.Float) × (s : Complex F)
        × (problem_of np (with_base np tol base_power) topology p q v ≡ ok problem)
        × (residual np problem x ≡ ok r)
        × (get_elem? topology.ids k ≡ some id)
        × (get_elem? (measurement_of c p q v).values j ≡ some a)
        × (get_elem? topology.base_voltages k ≡ some b)
        × (get_elem? (drop problem.num_node x) k ≡ some m)
        × (get_elem? (powers np problem.y (take problem.num_node x) (drop problem.num_node x)) k
            ≡ some s)
        × (get_elem? r (start_of c p v + j) ≡ some (difference F c base_power a b m s))
  residual-difference topology y p q v x same read shape wp wq wv many c j id h =
      let (problem, made) =
        problem_of-IsProblem np tol base_power topology y p q v same read shape wp wq wv in
      let n = problem.num_node in
      let doubled : length x ≡ n + n = omega (arith, many, made.nodes) in
      let (h1, h2, h3, estimate) = residual-IsEstimate np problem x made.posed doubled in
      let (k, at, named) = node_of c topology p q v problem made j id h in
      let inside : k < n =
        omega (arith, lt_of_get_elem? topology.ids k id named, same, made.nodes) in
      let (a, ha) = value_of c p q v wp.0 wq.0 wv.0 j id h in
      let (b, hb) = get_elem?-lt topology.base_voltages k (omega (arith, inside, made.nodes)) in
      let (m, hm) =
        get_elem?-lt (drop n x) k (omega (arith, inside, length-drop-add n n x doubled)) in
      let (s, hs) = get_elem?-lt (powers np problem.y (take n x) (drop n x)) k (
        omega (
          arith,
          inside,
          length-powers np n problem.y (take n x) (drop n x) ((made.posed).square).0
              (length-take-add n n x doubled) (length-drop-add n n x doubled),
        )) in
      (
        problem,
        _,
        k,
        a,
        b,
        m,
        s,
        made.set,
        estimate.differences,
        named,
        ha,
        hb,
        hm,
        hs,
        at_place topology p q v problem made x h1 h2 h3 estimate wv.0 wp.0 c j k a b m s ha hb hm hs
            at,
      )
