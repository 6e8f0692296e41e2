-- ===== src/Omoo.antt =====
-- omoo_federate/OMOO.py: one step of the online optimisation, its gradients and its projections.
-- `np.maximum` and `np.minimum` are for numbers, not for NaN.
pub mod Bounded
pub mod SetPoints
mod Tests
use sgidal_example.Prelude.{
  ltb, ◌==◌, if◌then◌else◌, length, get_elem?, set, replicate, or_raise, map_result, Result,
  value_error, index_error, ok, raise, ℕ, suc, ◌+◌, List, [], ◌∷◌, ◌>>=◌,
}
use sgidal_example.Floats.{Floats}
use sgidal_example.Wls.Arrays.{broadcast}

-- A row of `pv_frame`.
pub record PvRow (F : Floats) : Type 0 where
  pub avai : F.Float
  pub kvar_rated : F.Float

-- What `cost_fun` returns.
pub record Cost (F : Floats) : Type 0 where
  pub p : F.Float
  pub q : F.Float
  pub pck : F.Float
  pub tot_cost : F.Float
  pub dlp_pp : F.Float
  pub dlq_pp : F.Float

-- What `pv_cost` returns.
pub record Step (F : Floats) : Type 0 where
  pub pk_current : List F.Float
  pub qk_current : List F.Float
  pub dlp_pp_list : List F.Float
  pub dlq_pp_list : List F.Float
  pub tot_cost : F.Float

-- `m[:, i]`
unfoldable pub column : {A : Type 0} → ℕ → List (List A) → Result (List A)
column i m = map_result (λ row. or_raise (get_elem? row i) index_error) m

-- `xs[i] = v`
unfoldable pub put : {A : Type 0} → ℕ → A → List A → Result (List A)
put i v xs = if ltb i (length xs) then ok (set xs i v) else raise index_error

module _ (F : Floats) where
  unfoldable pub maximum : F.Float → F.Float → F.Float
  maximum a b = if F.lt a b then b else a

  unfoldable pub minimum : F.Float → F.Float → F.Float
  minimum a b = if F.lt b a then b else a

  abbrev pub zero_f : F.Float
  zero_f = F.from_ℕ 0

  abbrev pub alph : F.Float
  alph = F.literal 1 10

  -- `p_dev` and `q_dev`
  abbrev pub dev : F.Float
  dev = F.times (F.from_ℕ 1) (F.minus (F.from_ℕ 1) alph)

  -- `cost_P` and `cost_Q`
  abbrev pub cost : F.Float
  cost = F.times (F.from_ℕ 1) alph

  abbrev pub two : F.Float
  two = F.from_ℕ 2

  -- `1 / np.sqrt(2) * pv_avail_v` and its negative, of which Python negates the 1.
  abbrev pub share : F.Float → F.Float
  share avail = F.times (F.over (F.from_ℕ 1) (F.sqrt two)) avail

  abbrev pub negative_share : F.Float → F.Float
  negative_share avail = F.times (F.over (F.neg (F.from_ℕ 1)) (F.sqrt two)) avail

  -- `0.2 * pv_capacity_v` and its negative
  abbrev pub fifth : F.Float → F.Float
  fifth capacity = F.times (F.literal 2 10) capacity

  abbrev pub negative_fifth : F.Float → F.Float
  negative_fifth capacity = F.times (F.neg (F.literal 2 10)) capacity

  -- The projections of the reactive set point.
  unfoldable pub project_q : F.Float → F.Float → F.Float → F.Float
  project_q capacity avail uqk =
      let within = minimum (maximum uqk (negative_fifth capacity)) (fifth capacity) in
      if F.lt zero_f avail
      then minimum (share avail) (maximum (negative_share avail) within)
      else within

  -- The projections of the real set point.
  unfoldable pub project_p : F.Float → F.Float → F.Float
  project_p avail upk = minimum (maximum zero_f upk) avail

  -- `(m[:, pv_ii]) @ (muk_last - lambdak_last)`; `dot` is numpy's, for two vectors of one length.
  unfoldable pub dual_term :
      (List F.Float → List F.Float → F.Float)
      → ℕ
      → List (List F.Float)
      → List F.Float
      → List F.Float
      → Result F.Float
  dual_term dot pv_ii m muk lambdak = column pv_ii m >>= λ values.
      broadcast F.minus muk lambdak >>= λ change.
      if length values == length change then ok (dot values change) else raise value_error

module _ {F : Floats} where
  -- What `cost_fun` returns, from the two products with the dual variables.
  unfoldable pub projected :
      F.Float
      → F.Float
      → F.Float
      → F.Float
      → F.Float
      → F.Float
      → F.Float
      → F.Float
      → F.Float
      → F.Float
      → F.Float
      → Cost F
  projected q_set qk p_set pk pck avail capacity alpha tot_cost h_dual g_dual =
      let q_set_dev = F.times (F.times (dev F) (two F)) (F.plus (F.neg q_set) qk) in
      let q_cost = F.times (F.times (two F) (cost F)) qk in
      let dlq = F.plus (F.plus q_cost q_set_dev) h_dual in
      let q = project_q F capacity avail (F.minus qk (F.times alpha dlq)) in
      let p_set_dev = F.times (F.times (F.neg (dev F)) (two F)) (F.minus p_set pk) in
      let p_cost = F.times (F.times (two F) (cost F)) pck in
      let dlp = F.plus (F.plus p_cost p_set_dev) g_dual in
      let p = project_p F avail (F.minus pk (F.times alpha dlp)) in
      let curtailed = F.minus avail p in
      let square : F.Float → F.Float = λ (x : F.Float). F.times x x in
      record {
        p = p;
        q = q;
        pck = curtailed;
        tot_cost = F.plus tot_cost (
            F.plus
              (F.plus (F.plus (F.times (cost F) (square curtailed)) (F.times (cost F) (square q)))
                (F.times (dev F) (square (F.minus q_set qk))))
              (F.times (dev F) (square (F.minus p_set pk))));
        dlp_pp = dlp;
        dlq_pp = dlq;
      }

module _ {F : Floats} (dot : List F.Float → List F.Float → F.Float) where
  -- `Qk_v_last` is `Qk_v` and `nu` is not used.
  unfoldable pub cost_fun :
      F.Float
      → F.Float
      → ℕ
      → List F.Float
      → List F.Float
      → F.Float
      → F.Float
      → F.Float
      → F.Float
      → F.Float
      → List (List F.Float)
      → List (List F.Float)
      → F.Float
      → F.Float
      → Result (Cost F)
  cost_fun q_set qk pv_ii muk lambdak p_set pk pck avail capacity h g alpha tot_cost =
      dual_term F dot pv_ii h muk lambdak >>= λ h_dual.
      dual_term F dot pv_ii g muk lambdak >>= λ g_dual.
      ok (projected q_set qk p_set pk pck avail capacity alpha tot_cost h_dual g_dual)

  -- The values that the body of the loop of `pv_cost` reads for the PV system at place `pp`.
  unfoldable pub pv_cost_at :
      List (List F.Float)
      → List (List F.Float)
      → List F.Float
      → List F.Float
      → F.Float
      → F.Float
      → List (PvRow F)
      → List F.Float
      → List F.Float
      → List F.Float
      → List F.Float
      → ℕ
      → ℕ
      → F.Float
      → Result (Cost F)
  pv_cost_at g h pk_last qk_last sbase alpha frame lambdak muk set_real set_imag pp pv_ii tot_cost =
      or_raise (get_elem? frame pp) index_error >>= λ row.
      or_raise (get_elem? set_real pp) index_error >>= λ real.
      or_raise (get_elem? set_imag pp) index_error >>= λ imag.
      or_raise (get_elem? pk_last pp) index_error >>= λ pk.
      or_raise (get_elem? qk_last pp) index_error >>= λ qk.
      cost_fun (F.over imag sbase) qk pv_ii muk lambdak (F.over (F.minus row.avai real) sbase) pk
        (zero_f F) (F.over row.avai sbase) (F.over row.kvar_rated sbase) h g alpha tot_cost

  -- The loop, from place `pp` on, with the gradients and the cost so far.
  unfoldable pub pv_cost_from :
      (ℕ → ℕ → F.Float → Result (Cost F))
      → ℕ
      → List ℕ
      → List F.Float
      → List F.Float
      → F.Float
      → Result (Step F)
  pv_cost_from step pp [] dlp dlq tot_cost = ok (record {
    pk_current = [];
    qk_current = [];
    dlp_pp_list = dlp;
    dlq_pp_list = dlq;
    tot_cost = tot_cost;
  })
  pv_cost_from step pp (pv_ii ∷ pv_index) dlp dlq tot_cost = step pp pv_ii tot_cost >>= λ c.
      put pv_ii c.dlp_pp dlp >>= λ dlp'. put pv_ii c.dlq_pp dlq >>= λ dlq'.
      pv_cost_from step (suc pp) pv_index dlp' dlq' c.tot_cost >>= λ rest.
      ok (record rest { pk_current = c.p ∷ rest.pk_current; qk_current = c.q ∷ rest.qk_current })

  unfoldable pub pv_cost :
      List (List F.Float)
      → List (List F.Float)
      → ℕ
      → List F.Float
      → List F.Float
      → F.Float
      → F.Float
      → List ℕ
      → List (PvRow F)
      → List F.Float
      → List F.Float
      → List F.Float
      → List F.Float
      → Result (Step F)
  pv_cost g h n_node pk_last qk_last sbase alpha pv_index frame lambdak muk set_real set_imag =
      pv_cost_from (pv_cost_at g h pk_last qk_last sbase alpha frame lambdak muk set_real set_imag)
        0 pv_index (replicate n_node (zero_f F)) (replicate n_node (zero_f F)) (zero_f F)

module _ (F : Floats) where
  -- A dual variable after a step against the violation.
  unfoldable pub stepped : F.Float → F.Float → F.Float → F.Float → F.Float
  stepped alpha epsilon last violation =
      maximum F (zero_f F) (F.plus last (F.times alpha (F.minus violation (F.times epsilon last))))

  -- The duals are updated where `dual_update_v` is 1, and the counter goes on otherwise.
  unfoldable pub primal_dual :
      ℕ
      → List F.Float
      → List F.Float
      → F.Float
      → F.Float
      → List F.Float
      → List F.Float
      → List F.Float
      → Result (ℕ × List F.Float × List F.Float)
  primal_dual dual_update_v muk_last lambdak_last epsilon alpha uni_vmax uni_vmin v_k =
      let faster = F.times alpha (F.from_ℕ 10) in
      if dual_update_v == 1
      then (broadcast F.minus uni_vmin v_k >>= λ under.
          broadcast (stepped faster epsilon) lambdak_last under >>= λ lk.
          broadcast F.minus v_k uni_vmax >>= λ over.
          broadcast (stepped faster epsilon) muk_last over >>= λ mk. ok (0, lk, mk))
      else ok (dual_update_v + 1, lambdak_last, muk_last)
