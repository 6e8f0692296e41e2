-- ===== src/Omoo/Bounded.antt =====
-- The set points of a step lie within what each PV system can give.
use sgidal_example.Prelude.{Bool-cases, ◌≡◌, ◌⊎◌, inl, inr, false}
use sgidal_example.Floats.{Floats}
use sgidal_example.Lindistflow.Greatest.{IsOrdered}
use sgidal_example.Omoo.{
  maximum, minimum, share, negative_share, fifth, negative_fifth, zero_f, project_q, project_p,
}

module _ (F : Floats) where
  -- `a` is not above `b`.
  abbrev pub Under : F.Float → F.Float → Type 0
  Under a b = F.lt b a ≡ false

module _ (F : Floats) (ordered : IsOrdered F) where
  Under-refl : (a : F.Float) → Under F a a
  Under-refl a = elim (Bool-cases (F.lt a a)) [
    | inl below ↦ ordered.asymmetric a a below
    | inr level ↦ level
  ]

  -- The greater of two is above both.
  left-maximum : (a b : F.Float) → Under F a (maximum F a b)
  unfolding maximum
  left-maximum a b = elim (Bool-cases (F.lt a b)) [
    | inl below ↦ rw below (ordered.asymmetric a b below)
    | inr above ↦ rw above (Under-refl a)
  ]

  right-maximum : (a b : F.Float) → Under F b (maximum F a b)
  unfolding maximum
  right-maximum a b = elim (Bool-cases (F.lt a b)) [
    | inl below ↦ rw below (Under-refl b)
    | inr above ↦ rw above above
  ]

  minimum-left : (a b : F.Float) → Under F (minimum F a b) a
  unfolding minimum
  minimum-left a b = elim (Bool-cases (F.lt b a)) [
    | inl below ↦ rw below (ordered.asymmetric b a below)
    | inr above ↦ rw above (Under-refl a)
  ]

  minimum-right : (a b : F.Float) → Under F (minimum F a b) b
  unfolding minimum
  minimum-right a b = elim (Bool-cases (F.lt b a)) [
    | inl below ↦ rw below (Under-refl b)
    | inr above ↦ rw above above
  ]

  -- What is under both is under the lesser, and what is above both is above the greater.
  under-minimum : (c a b : F.Float) → Under F c a → Under F c b → Under F c (minimum F a b)
  unfolding minimum
  under-minimum c a b h k = elim (Bool-cases (F.lt b a)) [
    | inl below ↦ rw below k
    | inr above ↦ rw above h
  ]

  maximum-under : (c a b : F.Float) → Under F a c → Under F b c → Under F (maximum F a b) c
  unfolding maximum
  maximum-under c a b h k = elim (Bool-cases (F.lt a b)) [
    | inl below ↦ rw below k
    | inr above ↦ rw above h
  ]

  pub project_p-Under :
      (avail u : F.Float)
      → Under F (zero_f F) avail
      → Under F (zero_f F) (project_p F avail u) × Under F (project_p F avail u) avail
  unfolding project_p
  project_p-Under avail u h = (
    under-minimum (zero_f F) (maximum F (zero_f F) u) avail (left-maximum (zero_f F) u) h,
    minimum-right (maximum F (zero_f F) u) avail,
  )

  -- The bounds of the reactive set point fit together.
  pub record HasRoom (avail capacity : F.Float) : Type 0 where
    pub available : Under F (zero_f F) avail
    pub fifths : Under F (negative_fifth F capacity) (fifth F capacity)
    pub shares : Under F (negative_share F avail) (share F avail)
    pub share_above : Under F (negative_fifth F capacity) (share F avail)
    pub share_below : Under F (negative_share F avail) (fifth F capacity)

  -- The real set point is between 0 and what is available; the reactive one within a fifth of the
  -- capacity, and within the share of what is available where something is.
  pub record InBounds (avail capacity p q : F.Float) : Type 0 where
    pub not_negative : Under F (zero_f F) p
    pub available : Under F p avail
    pub above : Under F (negative_fifth F capacity) q
    pub below : Under F q (fifth F capacity)
    pub share :
        (F.lt (zero_f F) avail ≡ false)
        ⊎ (Under F (negative_share F avail) q × Under F q (share F avail))

  pub project-InBounds :
      (avail capacity up uq : F.Float)
      → HasRoom avail capacity
      → InBounds avail capacity (project_p F avail up) (project_q F capacity avail uq)
  unfolding project_q
  project-InBounds avail capacity up uq room =
      let lo = negative_fifth F capacity in
      let hi = fifth F capacity in
      let within = minimum F (maximum F uq lo) hi in
      let over_lo : Under F lo within =
        under-minimum lo (maximum F uq lo) hi (right-maximum uq lo) room.fifths in
      let under_hi : Under F within hi = minimum-right (maximum F uq lo) hi in
      let real = project_p-Under avail up room.available in
      elim (Bool-cases (F.lt (zero_f F) avail)) [
        | inr empty ↦ rw empty (record {
          not_negative = real.0;
          available = real.1;
          above = over_lo;
          below = under_hi;
          share = inl empty;
        })
        | inl some_left ↦
            let least = negative_share F avail in
            let most = share F avail in
            let raised = maximum F least within in
            rw some_left (record {
              not_negative = real.0;
              available = real.1;
              above =
                  under-minimum lo most raised room.share_above
                    (ordered.transitive lo within raised over_lo (right-maximum least within));
              below =
                  ordered.transitive (minimum F most raised) raised hi (minimum-right most raised)
                    (maximum-under hi least within room.share_below under_hi);
              share = inr (
                under-minimum least most raised room.shares (left-maximum least within),
                minimum-left most raised,
              );
            })
      ]
