-- ===== src/Worldline/Locate/Answers.antt =====
-- What getCoord writes for a date, between neighbouring cursors.
use gyoto.Prelude.{
  ℕ, ◌+◌, ◌≡◌, ◌≤◌, ◌∙◌, ◌⊎◌, inl, inr, Bool, true, false, Bool-cases, refl, sym, ap, subst, some,
  List, [], ◌∷◌, ok, arith,
}
use gyoto.Worldline.{Worldline, Sample}
use gyoto.Worldline.Expand.{IsFilled, Extends}
use gyoto.Worldline.Fill.{Integrator, value_or}
use gyoto.Worldline.Fill.Total.{sample_at, read_sample_in}
use gyoto.Worldline.Locate.{Cursors, Geometry, ge, time, time_slot, at_sample, between}
use gyoto.Worldline.Locate.Search.{Encloses}

module _ {F I : Type 0} (integrator : Integrator F I) (geometry : Geometry F) (proper : Bool) where
  open integrator use {lt, eq}

  -- What is written for a date comes from the sample of that date, or from two neighbouring samples,
  -- of which the first is not after the date and the second is not before it.
  pub record Answers (w : Worldline F) (date : F) (coord : Sample F) : Type 0 where
    pub index : ℕ
    pub first : w.imin ≤ index
    pub final : index ≤ w.imax
    pub found : F
    pub found_read : time proper w index ≡ some found
    pub source :
        ((eq date found ≡ true)
          × (coord ≡ at_sample integrator geometry proper (sample_at integrator w index)))
        ⊎ ((next : F) × (index + 1 ≤ w.imax)
            × (ge integrator date found ≡ true)
            × (time proper w (index + 1) ≡ some next)
            × (lt next date ≡ false)
            × (coord
                ≡ geometry.interpolate
                    (sample_at integrator w index)
                    (sample_at integrator w (index + 1))
                    date))

  abbrev pub AllAnswered : Worldline F → List F → List (Sample F) → Type 0
  AllAnswered w [] [] = Unit
  AllAnswered w [] (coord ∷ coords) = ⊥
  AllAnswered w (date ∷ dates) [] = ⊥
  AllAnswered w (date ∷ dates) (coord ∷ coords) = Answers w date coord × AllAnswered w dates coords

  pub between_lem :
      (w : Worldline F) (date : F) (c : Cursors)
      → IsFilled w
      → (e : Encloses integrator proper w date c) → c.curh ≡ c.curl + 1
      → (coord : Sample F) × (between integrator geometry proper w date c ≡ ok coord)
        × Answers w date coord
  unfolding between
  between_lem w date c f e next =
      let low = read_sample_in integrator w c.curl f e.first (omega (arith, e.apart, e.final)) in
      let high = read_sample_in integrator w c.curh f (omega (arith, e.first)) e.final in
      elim (Bool-cases (eq date e.low)) [
        | inl same ↦ (
          at_sample integrator geometry proper (sample_at integrator w c.curl),
          simp (low, e.low_read, same),
          record {
            index = c.curl;
            first = e.first;
            final = omega (arith, e.apart, e.final);
            found = e.low;
            found_read = e.low_read;
            source = inl (same, refl);
          },
        )
        | inr other ↦ (
          geometry.interpolate (sample_at integrator w c.curl) (sample_at integrator w c.curh) date,
          simp (low, high, e.low_read, other),
          record {
            index = c.curl;
            first = e.first;
            final = omega (arith, e.apart, e.final);
            found = e.low;
            found_read = e.low_read;
            source = inr (
              e.high,
              omega (arith, e.apart, e.final),
              e.from_low,
              subst (λ k. time proper w k ≡ some e.high) next e.high_read,
              e.to_high,
              ap
                  (λ k.
                    geometry.interpolate (sample_at integrator w c.curl) (sample_at integrator w k)
                      date)
                  next,
            );
          },
        )
      ]

  moved :
      (w w' : Worldline F) (x : Extends w w') (k : ℕ)
      → w.imin ≤ k
      → k ≤ w.imax
      → sample_at integrator w k ≡ sample_at integrator w' (k + x.shift)
  moved w w' x k lo hi = λ i s. value_or integrator.nothing (sym (x.kept s k lo hi) i)

  -- An answer stays one when the worldline is extended.
  pub Answers-Extends :
      (w w' : Worldline F) (date : F) (coord : Sample F)
      → Extends w w'
      → Answers w date coord
      → Answers w' date coord
  Answers-Extends w w' date coord x a = record {
    index = a.index + x.shift;
    first = omega (arith, a.first, x.below);
    final = omega (arith, a.final, x.above);
    found = a.found;
    found_read = x.kept (time_slot proper) a.index a.first a.final ∙ a.found_read;
    source = elim a.source [
      | inl (same, e) ↦ inl (
        same,
        e ∙ ap (at_sample integrator geometry proper) (moved w w' x a.index a.first a.final),
      )
      | inr (next, room, from, r, to, e) ↦
          let step : (a.index + 1) + x.shift ≡ (a.index + x.shift) + 1 = omega arith in
          let second =
            subst (λ k. sample_at integrator w (a.index + 1) ≡ sample_at integrator w' k) step
              (moved w w' x (a.index + 1) (omega arith) room) in
          inr (
            next,
            omega (arith, x.above),
            from,
            subst (λ k. time proper w' k ≡ some next) step
                (x.kept (time_slot proper) (a.index + 1) (omega arith) room ∙ r),
            to,
            cc (moved w w' x a.index a.first a.final),
          )
    ];
  }
