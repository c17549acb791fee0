-- ===== src/Photon/Iteration/Backward.antt =====
-- The integration loop of Photon::hit towards the past.
use gyoto.Prelude.{
  ℕ, zero, suc, ◌+◌, ◌≡◌, ◌≤◌, ◌<◌, inl, inr, refl, sym, ap, subst, ◌∙◌, Bool, true, false,
  Bool-cases, ◌&&◌, ◌||◌, not, ◌==◌, ==_iff, Option, none, some, Outcome, ok, arith,
}
use gyoto.Worldline.{Worldline, Sample, backward, x0, x1, x2, x3, store}
use gyoto.Worldline.Expand.{
  expand_lem, expand-Extends, IsFilled, Extends, Extends-refl, Extends-trans,
}
use gyoto.Worldline.Fill.GoesOn.{store-GoesOn, store-imin, allocated_x0}
use gyoto.Worldline.Fill.{next_index}
use gyoto.Photon.Iteration.{
  Tracing, Rest, next, radius_at, beyond, extend, make_room, finish, approach, advance,
  advance_from, after_crossings, iteration, loop,
}
use gyoto.Photon.Crossings.{given_up, given_up_in}

pub next_back : (ind : ℕ) → 0 < ind → next backward ind + 1 ≡ ind
next_back zero h = absurd (omega arith)
next_back (suc ind) h = omega arith

module _ {F I A : Type 0} (tracing : Tracing F I A) where
  open tracing use {integrator, tmin, r_max, impact, opaque, equator, has_data}

  -- The kind of coordinates is known.
  abbrev pub HasRadius : (F → F → F → F) → Type 0
  HasRadius r = tracing.radius ≡ some r

  pub radius_in :
      (r : F → F → F → F) (w : Worldline F) (k : ℕ)
      → HasRadius r
      → IsFilled w
      → w.imin ≤ k
      → k ≤ w.imax
      → (rr : F) × (radius_at tracing w k ≡ ok rr)
  unfolding radius_at
  radius_in r w k known f lo hi =
      let (a, ea) = f.written x1 k lo hi (ground arith) in
      let (b, eb) = f.written x2 k lo hi (ground arith) in
      let (c, ec) = f.written x3 k lo hi (ground arith) in (r a b c, rw (ea, eb, ec, known) refl)

  -- A filled worldline that goes on from `v`.
  abbrev pub Goes : Worldline F → Worldline F → Type 0
  Goes v w = IsFilled w × Extends v w

  -- The call returns, and the worldline goes on from `v`.
  abbrev pub Returns : Worldline F → Outcome (Bool × Worldline F × A) → Type 0
  Returns v out =
      (hitt : Bool) × (w' : Worldline F) × (a' : A) × (out ≡ ok (hitt, w', a')) × Goes v w'

  -- What the rest of the loop is trusted with.
  abbrev pub Continues : Rest tracing → Type 0
  Continues go_on =
      (w : Worldline F) (coord : Sample F) (state : I) (hitt : Bool) (rr : F) (a : A)
      → IsFilled w
      → 0 < w.imin
      → Returns w (go_on w w.imin coord state hitt rr a)

  make_room_lem :
      (w : Worldline F) (ind : ℕ)
      → ind ≡ w.imin
      → IsFilled w
      → let p = make_room backward w ind in Goes w p.0 × (p.1 ≡ p.0.imin) × (0 < p.0.imin)
  unfolding make_room
  make_room_lem w ind at f = elim (Bool-cases (w.imin == 0)) [
    | inr room ↦ rw room ((f, Extends-refl w), at, ground arith)
    | inl full ↦
        let e : w.imin ≡ 0 = (==_iff w.imin 0).0 full in
        let grown = expand_lem w backward f in
        let (same_index, room) = grown.6 refl e in
        rw full
          ((grown.0, expand-Extends w backward), same_index, subst (λ k. 0 < k) same_index room)
  ]

  finish_lem :
      (stop : Bool) (go_on : Rest tracing) (w : Worldline F) (ind : ℕ) (coord : Sample F)
      (state : I) (hitt : Bool) (rr : F) (a : A)
      → Continues go_on
      → ind ≡ w.imin
      → IsFilled w
      → Returns w (finish tracing stop backward go_on w ind coord state hitt rr a)
  unfolding finish
  finish_lem stop go_on w ind coord state hitt rr a cont at f =
      let p = make_room backward w ind in
      let (goes, same_index, room) = make_room_lem w ind at f in
      elim (Bool-cases (stop || beyond tracing backward (coord x0))) [
        | inl over ↦ (hitt, w, a, rw (finish, over) refl, (f, Extends-refl w))
        | inr more ↦
            let (h, w', a', r, (f', x)) = cont p.0 coord state hitt rr a goes.0 room in
            let step =
              subst (λ k. go_on p.0 k coord state hitt rr a ≡ ok (h, w', a')) (sym same_index) r in
            (h, w', a', rw (finish, more) step, (f', Extends-trans goes.1 x))
      ]

  approach_lem :
      (r : F → F → F → F) (go_on : Rest tracing) (w : Worldline F) (ind : ℕ) (coord : Sample F)
      (state : I) (hitt : Bool) (rr_prev : F) (a : A)
      → HasRadius r
      → Continues go_on
      → ind ≡ w.imin
      → IsFilled w
      → Returns w (approach tracing backward go_on w ind coord state hitt rr_prev a)
  unfolding approach
  approach_lem r go_on w ind coord state hitt rr_prev a known cont at f =
      let (rr, known_rr) = radius_in r w ind known f (omega arith) (omega (arith, f.low, f.high)) in
      let good : (w.imin == ind) || (w.imax == ind) ≡ true = ground arith in
      let (h, a') = impact w ind a in
      let stop = ((hitt || h) && not has_data) || opaque a' in
      elim (Bool-cases (integrator.lt rr r_max)) [
        | inl near ↦
            let (h', w', a'', e, goes) =
              finish_lem stop go_on w ind coord state (hitt || h) rr a' cont at f in
            (h', w', a'', simp (approach, good, known_rr, near, e), goes)
        | inr far ↦ elim (Bool-cases (integrator.lt rr_prev rr)) [
          | inl away ↦ (
            hitt,
            w,
            tracing.record_outgoing coord a,
            simp (approach, good, known_rr, far, away),
            (f, Extends-refl w),
          )
          | inr closer ↦
              let (h', w', a'', e, goes) =
                finish_lem false go_on w ind coord state hitt rr a cont at f in
              (h', w', a'', simp (approach, good, known_rr, far, closer, e), goes)
        ]
      ]

  advance_lem :
      (r : F → F → F → F) (go_on : Rest tracing) (w : Worldline F) (coord : Sample F) (state : I)
      (hitt : Bool) (rr_prev : F) (a : A)
      → HasRadius r
      → Continues go_on
      → IsFilled w
      → 0 < w.imin
      → Returns w (advance tracing (some go_on) backward w w.imin coord state hitt rr_prev a)
  unfolding advance
  advance_lem r go_on w coord state hitt rr_prev a known cont f room =
      let i = next backward w.imin in
      let i_is : next_index backward w.imin ≡ i = omega (arith, next_back w.imin room) in
      let (w', st, on) = store-GoesOn backward w w.imin coord f room in
      let st' = subst (λ k. store w k coord ≡ ok w') i_is st in
      let same_imin = store-imin w w' i coord st' in
      let at : i ≡ next backward w'.imin = ap (next backward) (sym same_imin) in
      let goes : Goes w (extend backward w') =
        subst (λ k. Goes w (record w' { imin = k })) (i_is ∙ at) (on.0, on.1) in
      let (h, v, a', e, (f', x)) =
        approach_lem r go_on (extend backward w') i coord state hitt rr_prev a known cont at
          goes.0 in
      (h, v, a', rw st' e, (f', Extends-trans goes.1 x))

  -- An iteration with what may follow it.
  abbrev MayContinue : Option (Rest tracing) → Type 0
  MayContinue none = Unit
  MayContinue (some go_on) = Continues go_on

  may_advance :
      (r : F → F → F → F) (go_on : Option (Rest tracing)) (w : Worldline F) (coord : Sample F)
      (state : I) (hitt : Bool) (rr_prev : F) (a : A)
      → HasRadius r
      → MayContinue go_on
      → IsFilled w
      → 0 < w.imin
      → Returns w (advance tracing go_on backward w w.imin coord state hitt rr_prev a)
  unfolding advance
  may_advance r none w coord state hitt rr_prev a known cont f room =
      (hitt, w, a, refl, (f, Extends-refl w))
  may_advance r (some go_on) w coord state hitt rr_prev a known cont f room =
      advance_lem r go_on w coord state hitt rr_prev a known cont f room

  advance_from_lem :
      (r : F → F → F → F) (go_on : Option (Rest tracing)) (w : Worldline F) (coord : Sample F)
      (state : I) (hitt : Bool) (rr_prev : F) (a : A) (previous : F)
      → HasRadius r
      → MayContinue go_on
      → IsFilled w
      → 0 < w.imin
      → Returns w (advance_from tracing go_on backward w w.imin coord state hitt rr_prev a previous)
  unfolding advance_from
  advance_from_lem r go_on w coord state hitt rr_prev a previous known cont f room =
      elim (Bool-cases (integrator.eq (coord x0) previous || integrator.is_stop_condition coord)) [
        | inl halt ↦ (hitt, w, a, rw (advance_from, halt) refl, (f, Extends-refl w))
        | inr moving ↦
            let (h, v, a', s, goes) =
              may_advance r go_on w coord state hitt rr_prev a known cont f room in
            (h, v, a', rw (advance_from, moving) s, goes)
      ]

  after_crossings_lem :
      (r : F → F → F → F) (go_on : Option (Rest tracing)) (w : Worldline F)
      (next_sample : Bool × Sample F × I) (hitt : Bool) (rr_prev : F) (out : Bool × A)
      → HasRadius r
      → MayContinue go_on
      → IsFilled w
      → 0 < w.imin
      → Returns w (after_crossings tracing go_on backward w w.imin next_sample hitt rr_prev out)
  unfolding after_crossings
  after_crossings_lem r go_on w next_sample hitt rr_prev (true, a) known cont f room =
      (false, w, a, refl, (f, Extends-refl w))
  after_crossings_lem r go_on w (true, coord, state) hitt rr_prev (false, a) known cont f room =
      (hitt, w, tracing.darken a, refl, (f, Extends-refl w))
  after_crossings_lem r go_on w (false, coord, state) hitt rr_prev (false, a) known cont f room =
      let (previous, e) =
        f.written x0 w.imin (omega arith) (omega (arith, f.low, f.high)) (allocated_x0 w) in
      let (h, v, a', s, goes) =
        advance_from_lem r go_on w coord state hitt rr_prev a previous known cont f room in
      (h, v, a', rw e s, goes)

  iteration_goes :
      (go_on : Option (Rest tracing)) (w : Worldline F) (next_sample : Bool × Sample F × I)
      (hitt : Bool) (rr_prev : F) (a : A) (out : Bool × A)
      → has_data ≡ true
      → given_up equator w w.imin next_sample.1 a ≡ ok out
      → iteration tracing go_on backward w w.imin next_sample hitt rr_prev a
        ≡ after_crossings tracing go_on backward w w.imin next_sample hitt rr_prev out
  unfolding iteration
  iteration_goes go_on w (stop, coord, state) hitt rr_prev a out there e = rw (there, e) refl

  iteration_lem :
      (r : F → F → F → F) (go_on : Option (Rest tracing)) (w : Worldline F)
      (next_sample : Bool × Sample F × I) (hitt : Bool) (rr_prev : F) (a : A)
      → HasRadius r
      → has_data ≡ true
      → MayContinue go_on
      → IsFilled w
      → 0 < w.imin
      → Returns w (iteration tracing go_on backward w w.imin next_sample hitt rr_prev a)
  iteration_lem r go_on w next_sample hitt rr_prev a known there cont f room =
      let (out, e) =
        given_up_in equator w w.imin next_sample.1 a f (omega arith)
          (omega (arith, f.low, f.high)) in
      let (h, v, a', s, goes) =
        after_crossings_lem r go_on w next_sample hitt rr_prev out known cont f room in
      (h, v, a', iteration_goes go_on w next_sample hitt rr_prev a out there e ∙ s, goes)

  pub loop_lem :
      (r : F → F → F → F) (left : ℕ)
      → HasRadius r
      → has_data ≡ true
      → Continues (loop tracing left backward)
  unfolding loop
  loop_lem r zero known there w coord state hitt rr a f room =
      iteration_lem r none w (integrator.next_step state coord) hitt rr a known there tt f room
  loop_lem r (suc left) known there w coord state hitt rr a f room =
      iteration_lem r (some (loop tracing left backward)) w (integrator.next_step state coord) hitt
        rr a known there (loop_lem r left known there) f room
