-- ===== src/Worldline/Locate/Extend.antt =====
-- The cursors of getCoord where it extends the worldline.
use gyoto.Prelude.{
  refl, ◌∙◌, ℕ, ◌+◌, ◌-◌, ◌≡◌, ◌≤◌, ◌≢◌, ◌⊎◌, inl, inr, Bool, true, false, Bool-cases, ◌||◌, ◌==◌,
  some, Outcome, ok, throws, Error, arith,
}
use gyoto.Worldline.{Worldline, forward, backward}
use gyoto.Worldline.Expand.{IsFilled, Extends}
use gyoto.Worldline.Fill.{Integrator, Failures}
use gyoto.Worldline.Fill.Grown.{Grown}
use gyoto.Worldline.Fill.GoesOn.{allocated_time}
use gyoto.Worldline.Fill.Total.{fill-forward, fill-backward, IsBlamed}
use gyoto.Worldline.Locate.{Cursors, time, time_slot, extend_future, extend_past}
use gyoto.Worldline.Locate.Search.{IsOrder, Encloses, IsDated}

module _ {F I : Type 0} (integrator : Integrator F I) (proper : Bool) where
  open integrator use {lt, eq}

  -- The date is after the last sample in use or before the first.
  abbrev pub IsOutside : Worldline F → F → Type 0
  IsOutside w date =
      ((last : F) × (time proper w w.imax ≡ some last) × (lt last date ≡ true))
      ⊎ ((first : F) × (time proper w w.imin ≡ some first) × (lt date first ≡ true))

  pub IsFilled-IsDated : (w : Worldline F) → IsFilled w → IsDated integrator proper w
  IsFilled-IsDated w f k lo hi = f.written (time_slot proper) k lo hi (allocated_time w proper)

  kept_read :
      (w w' : Worldline F) (k : ℕ) {t : F} {i : ℕ}
      → (x : Extends w w') → w.imin ≤ k
      → k ≤ w.imax
      → i ≡ k + x.shift
      → time proper w k ≡ some t
      → time proper w' i ≡ some t
  kept_read w w' k x lo hi same e = rw same (x.kept (time_slot proper) k lo hi ∙ e)

  future-Encloses :
      (w w' : Worldline F) (date last last' : F)
      → IsFilled w
      → Extends w w'
      → Grown forward w w'
      → time proper w w.imax ≡ some last
      → lt last date ≡ true
      → time proper w' w'.imax ≡ some last'
      → (w.imax == w'.imax) || lt last' date ≡ false
      → Encloses integrator proper w' date (record { curl = w.imax; curh = w'.imax })
  future-Encloses w w' date last last' f x g e after e' within = record {
    first = omega (arith, x.below, x.same_i0, f.low, f.high);
    apart = let ne : w.imax ≢ w'.imax = ground arith in omega (arith, x.above, x.same_i0);
    final = omega arith;
    low = last;
    low_read =
        kept_read w w' w.imax x (omega (arith, f.low, f.high)) (omega arith)
          (omega (arith, x.same_i0)) e;
    from_low = ground arith;
    high = last';
    high_read = e';
    to_high = ground arith;
  }

  past-Encloses :
      (w w' : Worldline F) (date first first' : F)
      → IsOrder integrator
      → IsFilled w
      → IsFilled w'
      → Extends w w'
      → Grown backward w w'
      → time proper w w.imin ≡ some first
      → lt date first ≡ true
      → time proper w' w'.imin ≡ some first'
      → (w'.imin == w'.x_size - (w.x_size - w.imin)) || lt date first' ≡ false
      → Encloses integrator proper w' date
          (record { curl = w'.imin; curh = w'.x_size - (w.x_size - w.imin) })
  past-Encloses w w' date first first' order f f' x g e before e' within =
      let top : w'.x_size - (w.x_size - w.imin) ≡ w.imin + x.shift =
        omega (arith, x.same_i0, f.within, f.low, f.high, f'.within) in
      let ne : w'.imin ≢ w'.x_size - (w.x_size - w.imin) = ground arith in
      record {
        first = omega arith;
        apart = omega (arith, x.below);
        final = omega (arith, x.above, f.low, f.high);
        low = first';
        low_read = e';
        from_low = order.total date first' (ground arith);
        high = first;
        high_read = kept_read w w' w.imin x (omega arith) (omega (arith, f.low, f.high)) top e;
        to_high = order.asymmetric date first before;
      }

module _ {F I : Type 0} (integrator : Integrator F I) (failures : Failures F I)
    (proper : Bool) where
  open integrator use {lt, eq}

  -- What getCoord may throw: that it cannot get coordinates, or what the integrator has thrown.
  abbrev pub MayThrow : Error → Type 0
  MayThrow e = (e ≡ Error.date_out_of_reach) ⊎ IsBlamed integrator failures e

  -- A call that leaves a filled worldline and cursors around the date, or throws. It extends the
  -- worldline, or throws, only for a date outside.
  abbrev pub Brackets : Worldline F → F → Outcome (Worldline F × Cursors) → Type 0
  Brackets w date r =
      ((w' : Worldline F) × (c' : Cursors) × (r ≡ ok (w', c'))
        × IsFilled w'
        × Extends w w'
        × (IsOutside integrator proper w date ⊎ (w' ≡ w))
        × Encloses integrator proper w' date c')
      ⊎ ((e : Error) × (r ≡ throws e) × MayThrow e × IsOutside integrator proper w date)

  pub extend_future_lem :
      (w : Worldline F) (date last : F)
      → integrator.mass_known ≡ true
      → IsFilled w
      → time proper w w.imax ≡ some last
      → lt last date ≡ true
      → Brackets w date (extend_future integrator failures proper w date)
  unfolding extend_future
  extend_future_lem w date last mass f e after =
      let out_there : IsOutside integrator proper w date = inl (last, e, after) in
      elim (fill-forward integrator failures w date proper last mass f e after) [
        | inr (m, r, blamed) ↦ inr (m, simp r, inr blamed, out_there)
        | inl (w', r, (f', x, g)) ↦
            let (last', e') =
              IsFilled-IsDated integrator proper w' f' w'.imax (omega (arith, f'.low, f'.high))
                (omega arith) in
            elim (Bool-cases ((w.imax == w'.imax) || lt last' date)) [
              | inl out ↦ inr (Error.date_out_of_reach, simp (r, e', out), inl refl, out_there)
              | inr within ↦ inl (
                w',
                record { curl = w.imax; curh = w'.imax },
                simp (r, e', within),
                f',
                x,
                inl out_there,
                future-Encloses integrator proper w w' date last last' f x g e after e' within,
              )
            ]
      ]

  pub extend_past_lem :
      (w : Worldline F) (date last first : F)
      → IsOrder integrator
      → integrator.mass_known ≡ true
      → IsFilled w
      → time proper w w.imax ≡ some last
      → lt last date ≡ false
      → time proper w w.imin ≡ some first
      → lt date first ≡ true
      → Brackets w date (extend_past integrator failures proper w date)
  unfolding extend_past
  extend_past_lem w date last first order mass f e inside e0 before =
      let out_there : IsOutside integrator proper w date = inr (first, e0, before) in
      elim (fill-backward integrator failures w date proper last first mass f e inside e0 before) [
        | inr (m, r, blamed) ↦ inr (m, simp r, inr blamed, out_there)
        | inl (w', r, (f', x, g)) ↦
            let (first', e') =
              IsFilled-IsDated integrator proper w' f' w'.imin (omega arith)
                (omega (arith, f'.low, f'.high)) in
            let top = w'.x_size - (w.x_size - w.imin) in
            elim (Bool-cases ((w'.imin == top) || lt date first')) [
              | inl out ↦ inr (Error.date_out_of_reach, simp (r, e', out), inl refl, out_there)
              | inr within ↦ inl (
                w',
                record { curl = w'.imin; curh = top },
                simp (r, e', within),
                f',
                x,
                inl out_there,
                past-Encloses integrator proper w w' date first first' order f f' x g e0 before e'
                    within,
              )
            ]
      ]
