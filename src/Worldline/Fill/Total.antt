-- ===== src/Worldline/Fill/Total.antt =====
-- xFill returns, keeps every sample and leaves no gap.
use gyoto.Prelude.{
  ℕ, zero, suc, ◌-◌, ◌≤◌, ◌≡◌, ◌⊎◌, refl, inl, inr, Bool, Option, none, true, false, Bool-cases,
  ◌||◌, ==_iff, ◌==◌, if◌then◌else◌, Outcome, ok, throws, Error, some, arith,
}
use gyoto.Worldline.{Worldline, Slot, Sample, Direction, forward, backward, x0, tau}
use gyoto.Worldline.Expand.{IsFilled, Extends, Extends-refl, Extends-trans}
use gyoto.Worldline.Fill.{
  Integrator, Failures, slots, read_sample, make_room, next_index, passed, keep_sample, iteration,
  loop, rounds_of, close, integrate, start_from, fill, value_or,
}
use gyoto.Worldline.Fill.Grown.{Grown, Grown-refl, Grown-trans, Grown-close, Grown-open}
use gyoto.Worldline.Fill.GoesOn.{
  GoesOn, expand-GoesOn, make_room-GoesOn, store-GoesOn, allocated_x0, allocated_time, read_end,
  readable_end, GoesOn-trans, readable_in,
}

Option-cases {ℓ} : {A : Type ℓ} (o : Option A) → (o ≡ none) ⊎ ((a : A) × (o ≡ some a))
Option-cases none = inl refl
Option-cases (some a) = inr (a, refl)

module _ {F I : Type 0} (integrator : Integrator F I) where
  -- What getCoord(ind, coord) reads.
  abbrev pub sample_at : Worldline F → ℕ → Sample F
  sample_at v ind = λ s. value_or integrator.nothing (v.cells s ind)

  pub read_sample_in :
      (w : Worldline F) (k : ℕ)
      → IsFilled w
      → w.imin ≤ k
      → k ≤ w.imax
      → read_sample integrator w k ≡ ok (sample_at w k)
  unfolding read_sample
  read_sample_in w k f lo hi = simp (readable_in w k slots f lo hi)

module _ {F I : Type 0} (integrator : Integrator F I) (failures : Failures F I) where
  open integrator use {next_step, is_stop_condition, eq, lt}
  open failures use {init_error, step_error}

  -- An error that a call of the integrator throws.
  abbrev pub IsBlamed : Error → Type 0
  IsBlamed e =
      ((coord : Sample F) × (dir : Direction) × (init_error coord dir ≡ some e))
      ⊎ ((state : I) × (coord : Sample F) × (step_error state coord ≡ some e))

  -- A result with a property, or an error of the integrator.
  abbrev Ends : {A : Type 0} → (A → Type 0) → Outcome A → Type 0
  Ends {A} P r = ((a : A) × (r ≡ ok a) × P a) ⊎ ((e : Error) × (r ≡ throws e) × IsBlamed e)

  -- What the rest of the loop is trusted with.
  abbrev Continues :
      Direction → (Worldline F → ℕ → Sample F → I → Outcome (Worldline F × ℕ)) → Type 0
  Continues dir go_on =
      (w : Worldline F) (ind : ℕ) (coord : Sample F) (state : I)
      → IsFilled (close dir w ind)
      → Ends (GoesOn dir (close dir w ind)) (go_on w ind coord state)

  keep_sample-GoesOn :
      (last : Bool) (dir : Direction) (time : Slot) (tlim : F) (w : Worldline F) (ind : ℕ)
      (next : Bool × Sample F × I)
      (go_on : Worldline F → ℕ → Sample F → I → Outcome (Worldline F × ℕ))
      → Continues dir go_on
      → IsFilled (close dir w ind)
      → Ends
          (GoesOn dir (close dir w ind))
          (keep_sample integrator last dir time tlim w ind next go_on)
  unfolding keep_sample
  keep_sample-GoesOn last dir time tlim w ind (stop, coord, state) go_on cont f =
      let (room, has) = make_room-GoesOn dir w ind f in
      let p = make_room dir w ind in
      let i = next_index dir p.1 in
      let (w', st, on) = store-GoesOn dir p.0 p.1 coord room.0 has in
      let on' = GoesOn-trans dir (close dir w ind) p.0 p.1 (w', i) room.1 room.2 on in
      elim (Bool-cases (stop || last || passed integrator dir (coord time) tlim)) [
        | inl over ↦ inl ((w', i), rw (st, over) refl, on')
        | inr more ↦ elim (cont w' i coord state on'.0) [
          | inl (q, r, onq) ↦
              inl (q, rw (st, more) r, GoesOn-trans dir (close dir w ind) w' i q on'.1 on'.2 onq)
          | inr (e, r, b) ↦ inr (e, rw (st, more) r, b)
        ]
      ]

  iteration-GoesOn :
      (last : Bool) (dir : Direction) (time : Slot) (tlim : F) (w : Worldline F) (ind : ℕ)
      (next : Bool × Sample F × I)
      (go_on : Worldline F → ℕ → Sample F → I → Outcome (Worldline F × ℕ)) (previous : F)
      → Continues dir go_on
      → IsFilled (close dir w ind)
      → Ends
          (GoesOn dir (close dir w ind))
          (iteration integrator last dir time tlim w ind next go_on previous)
  unfolding iteration
  iteration-GoesOn last dir time tlim w ind (stop, coord, state) go_on previous cont f =
      elim (Bool-cases (eq (coord x0) previous || is_stop_condition coord)) [
        | inl halt ↦ inl (
          (w, ind),
          rw (halt, iteration) refl,
          (f, Extends-refl (close dir w ind), Grown-refl dir w ind),
        )
        | inr step ↦
            rw (step, iteration)
              (keep_sample-GoesOn last dir time tlim w ind (stop, coord, state) go_on cont f)
      ]

  loop-GoesOn :
      (rounds : ℕ) (dir : Direction) (time : Slot) (tlim : F)
      → Continues dir (loop integrator failures rounds dir time tlim)
  unfolding loop
  loop-GoesOn zero dir time tlim w ind coord state f =
      inl ((w, ind), refl, (f, Extends-refl (close dir w ind), Grown-refl dir w ind))
  loop-GoesOn (suc rounds) dir time tlim w ind coord state f =
      let (previous, e) = read_end dir w ind x0 f (allocated_x0 w) in
      elim (Option-cases (step_error state coord)) [
        | inl fine ↦
            rw (fine, e)
              (iteration-GoesOn (rounds == 0) dir time tlim w ind (next_step state coord) _ previous
                (loop-GoesOn rounds dir time tlim) f)
        | inr (message, thrown) ↦ inr (message, rw thrown refl, inr (state, coord, thrown))
      ]

  start_from-GoesOn :
      (dir : Direction) (w : Worldline F) → IsFilled w → GoesOn dir w (start_from dir w)
  unfolding start_from
  start_from-GoesOn forward w f = elim (Bool-cases (w.imax == w.x_size - 1)) [
    | inl full ↦ rw full (expand-GoesOn forward w f ((==_iff _ _).0 full)).0
    | inr free ↦ rw free (f, Extends-refl w, refl)
  ]
  start_from-GoesOn backward w f = elim (Bool-cases (w.imin == 0)) [
    | inl full ↦ rw full (expand-GoesOn backward w f ((==_iff _ _).0 full)).0
    | inr free ↦ rw free (f, Extends-refl w, refl)
  ]

  -- A filled worldline that has grown in one direction.
  abbrev pub FilledFrom : Direction → Worldline F → Worldline F → Worldline F → Type 0
  FilledFrom dir v w w' = IsFilled w' × Extends v w' × Grown dir w w'

  integrate-GoesOn :
      (dir : Direction) (time : Slot) (tlim : F) (v : Worldline F) (ind : ℕ)
      → integrator.mass_known ≡ true
      → IsFilled (close dir v ind)
      → Ends
          (FilledFrom dir (close dir v ind) v)
          (integrate integrator failures dir time tlim (v, ind))
  unfolding integrate read_sample
  integrate-GoesOn dir time tlim v ind mass f =
      let coord = sample_at integrator v ind in
      let full = readable_end dir v ind slots f in
      elim (Option-cases (init_error coord dir)) [
        | inr (message, thrown) ↦ inr (message, simp (mass, full, thrown), inl (coord, dir, thrown))
        | inl fine ↦
            elim (loop-GoesOn (rounds_of integrator.maxiter) dir time tlim v ind coord
              (integrator.init coord dir) f) [
                | inl ((u, i), r, on) ↦ inl (
                  close dir u i,
                  simp (mass, full, fine, r),
                  (on.0, on.1, Grown-close dir v u ind i on.2),
                )
                | inr (e, r, b) ↦ inr (e, simp (mass, full, fine, r), b)
              ]
      ]

  start-GoesOn :
      (dir : Direction) (time : Slot) (tlim : F) (w : Worldline F)
      → integrator.mass_known ≡ true
      → IsFilled w
      → Ends (FilledFrom dir w w) (integrate integrator failures dir time tlim (start_from dir w))
  start-GoesOn dir time tlim w mass f =
      let p = start_from dir w in
      let (fv, ev, gv) = start_from-GoesOn dir w f in
      elim (integrate-GoesOn dir time tlim p.0 p.1 mass fv) [
        | inl (w', r, (f', e', g')) ↦ inl (
          w',
          r,
          (f', Extends-trans ev e', Grown-trans dir w p.0 w' p.1 gv (Grown-open dir p.0 w' p.1 g')),
        )
        | inr thrown ↦ inr thrown
      ]

  -- What xFill leaves where the date is after the last sample.
  pub fill-forward :
      (w : Worldline F) (tlim : F) (proper : Bool) (last : F)
      → integrator.mass_known ≡ true
      → IsFilled w
      → w.cells (if proper then tau else x0) w.imax ≡ some last
      → lt last tlim ≡ true
      → Ends (FilledFrom forward w w) (fill integrator failures w tlim proper)
  unfolding fill
  fill-forward w tlim proper last mass f e up =
      rw (e, up) (start-GoesOn forward (if proper then tau else x0) tlim w mass f)

  -- What it leaves where the date is before the first sample.
  pub fill-backward :
      (w : Worldline F) (tlim : F) (proper : Bool) (last first : F)
      → integrator.mass_known ≡ true
      → IsFilled w
      → w.cells (if proper then tau else x0) w.imax ≡ some last
      → lt last tlim ≡ false
      → w.cells (if proper then tau else x0) w.imin ≡ some first
      → lt tlim first ≡ true
      → Ends (FilledFrom backward w w) (fill integrator failures w tlim proper)
  unfolding fill
  fill-backward w tlim proper last first mass f e not_up e' down =
      rw (e, not_up, e', down) (start-GoesOn backward (if proper then tau else x0) tlim w mass f)

  forget_growth :
      (dir : Direction) (w : Worldline F) (r : Outcome (Worldline F))
      → Ends (FilledFrom dir w w) r
      → Ends (λ w'. IsFilled w' × Extends w w') r
  forget_growth dir w r (inl (w', e, (f', x, g))) = inl (w', e, (f', x))
  forget_growth dir w r (inr thrown) = inr thrown

  -- On arrays that hold a sample at every index in use, and with a mass of 0 or 1, xFill returns, or it
  -- throws an error that a call of the integrator throws: it throws no other, ends, and neither reads
  -- nor writes outside the arrays. The worldline that it leaves where it returns holds a sample at every
  -- index in use again, and every sample that was there before, at the same distance from i0_. This
  -- holds for any behaviour of the integrator and of the metric. What a worldline holds after a throw
  -- is not described.
  pub fill_total :
      (w : Worldline F) (tlim : F) (proper : Bool)
      → integrator.mass_known ≡ true
      → IsFilled w
      → ((w' : Worldline F) × (fill integrator failures w tlim proper ≡ ok w')
          × (IsFilled w' × Extends w w'))
        ⊎ ((e : Error) × (fill integrator failures w tlim proper ≡ throws e) × IsBlamed e)
  unfolding fill
  fill_total w tlim proper mass f =
      let time = if proper then tau else x0 in
      let a = allocated_time w proper in
      let (last, e) = f.written time w.imax (omega (arith, f.low, f.high)) (omega arith) a in
      let (first, e') = f.written time w.imin (omega arith) (omega (arith, f.low, f.high)) a in
      elim (Bool-cases (lt last tlim)) [
        | inl up ↦ forget_growth forward w _ (fill-forward w tlim proper last mass f e up)
        | inr not_up ↦ elim (Bool-cases (lt tlim first)) [
          | inl down ↦
              forget_growth backward w _
                (fill-backward w tlim proper last first mass f e not_up e' down)
          | inr inside ↦ inl (w, simp (e, not_up, e', inside), (f, Extends-refl w))
        ]
      ]
