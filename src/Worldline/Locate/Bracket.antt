-- ===== src/Worldline/Locate/Bracket.antt =====
-- The samples that getCoord searches between.
use gyoto.Prelude.{
  refl, subst, ◌∙◌, ℕ, ◌≡◌, ◌≤◌, ◌≢◌, inl, inr, Bool, true, false, Bool-cases, some, ok, arith,
}
use gyoto.Worldline.{Worldline}
use gyoto.Worldline.Expand.{IsFilled, Extends-refl}
use gyoto.Worldline.Fill.{Integrator, Failures}
use gyoto.Worldline.Locate.{extend_future, extend_past, Cursors, ge, time, reuse, bracket}
use gyoto.Worldline.Locate.Extend.{Brackets, IsFilled-IsDated, extend_future_lem, extend_past_lem}
use gyoto.Worldline.Locate.Search.{IsOrder, Encloses, ge-lt}

module _ {F I : Type 0} (integrator : Integrator F I) (proper : Bool) where
  open integrator use {lt, eq}

  differ :
      (w : Worldline F) (test : F → Bool) (i j : ℕ) {s t : F}
      → time proper w i ≡ some s
      → time proper w j ≡ some t
      → test s ≡ true
      → test t ≡ false
      → i ≢ j
  differ w test i j es et yes_s no_t = λ same. cc

  reuse_lem :
      (w : Worldline F) (date last first : F) (c : Cursors)
      → IsOrder integrator
      → IsFilled w
      → w.imin ≤ c.curl
      → c.curl ≤ c.curh
      → c.curh ≤ w.imax
      → time proper w w.imax ≡ some last
      → ge integrator date last ≡ false
      → time proper w w.imin ≡ some first
      → lt date first ≡ false
      → (c' : Cursors) × (reuse integrator proper w date c ≡ ok (w, c'))
        × Encloses integrator proper w date c'
  unfolding reuse
  reuse_lem w date last first c order f lo ord hi e until e0 from =
      let (high, eh) = IsFilled-IsDated integrator proper w f c.curh (omega arith) hi in
      let (low, el) = IsFilled-IsDated integrator proper w f c.curl lo (omega arith) in
      elim (Bool-cases (ge integrator date high)) [
        | inl above ↦
            let ne = differ w (ge integrator date) c.curh w.imax eh e above until in
            (
              record { curl = c.curh; curh = w.imax },
              simp (eh, above),
              record {
                first = omega arith;
                apart = omega arith;
                final = omega arith;
                low = high;
                low_read = eh;
                from_low = above;
                high = last;
                high_read = e;
                to_high = ge-lt integrator proper date last until;
              },
            )
        | inr under ↦ elim (Bool-cases (lt date low)) [
          | inl below ↦
              let ne = differ w (lt date) c.curl w.imin el e0 below from in
              (
                record { curl = w.imin; curh = c.curl },
                simp (eh, under, el, below),
                record {
                  first = omega arith;
                  apart = omega arith;
                  final = omega arith;
                  low = first;
                  low_read = e0;
                  from_low = order.total date first from;
                  high = low;
                  high_read = el;
                  to_high = order.asymmetric date low below;
                },
              )
          | inr inside ↦
              let from_low = order.total date low inside in
              let ne = differ w (ge integrator date) c.curl c.curh el eh from_low under in
              (
                c,
                simp (eh, under, el, inside),
                record {
                  first = lo;
                  apart = omega arith;
                  final = hi;
                  low = low;
                  low_read = el;
                  from_low = from_low;
                  high = high;
                  high_read = eh;
                  to_high = ge-lt integrator proper date high under;
                },
              )
        ]
      ]

module _ {F I : Type 0} (integrator : Integrator F I) (failures : Failures F I)
    (proper : Bool) where
  open integrator use {lt, eq}

  -- Where the date is not that of the last sample, the branches of getCoord leave cursors around it.
  pub bracket_lem :
      (w : Worldline F) (date last : F) (c : Cursors)
      → IsOrder integrator
      → integrator.mass_known ≡ true
      → IsFilled w
      → w.imin ≤ c.curl
      → c.curl ≤ c.curh
      → c.curh ≤ w.imax
      → time proper w w.imax ≡ some last
      → eq date last ≡ false
      → Brackets integrator failures proper w date
          (bracket integrator failures proper w date c last)
  unfolding bracket
  bracket_lem w date last c order mass f lo ord hi e ne =
      let (first, e0) =
        IsFilled-IsDated integrator proper w f w.imin (omega arith)
          (omega (arith, f.low, f.high)) in
      elim (Bool-cases (lt last date)) [
        | inl after ↦
            let step : extend_future integrator failures proper w date
                ≡ bracket integrator failures proper w date c last =
              simp after in
            subst (Brackets integrator failures proper w date) step
              (extend_future_lem integrator failures proper w date last mass f e after)
        | inr until ↦ elim (Bool-cases (lt date first)) [
          | inl before ↦
              let step : extend_past integrator failures proper w date
                  ≡ bracket integrator failures proper w date c last =
                simp (until, e0, before) in
              subst (Brackets integrator failures proper w date) step (
                extend_past_lem integrator failures proper w date last first order mass f e until e0
                  before)
          | inr from ↦
              let (c', r, enc) =
                reuse_lem integrator proper w date last first c order f lo ord hi e (ground arith)
                  e0 from in
              let step : bracket integrator failures proper w date c last
                  ≡ reuse integrator proper w date c =
                simp (until, e0, from) in
              inl (w, c', step ∙ r, f, Extends-refl w, inr refl, enc)
        ]
      ]
