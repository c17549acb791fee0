-- ===== src/Photon/Hit/Total.antt =====
-- A photon towards the past is integrated to the end.
use gyoto.Prelude.{
  ℕ, ◌+◌, ◌≡◌, ◌≤◌, ◌<◌, inl, inr, refl, ◌∙◌, Bool, true, false, leb, ◌==◌, some, ok, arith,
}
use gyoto.Worldline.{Worldline, backward, x0}
use gyoto.Worldline.Expand.{IsFilled, Extends-refl}
use gyoto.Worldline.Fill.{read_sample}
use gyoto.Worldline.Fill.Total.{sample_at, read_sample_in}
use gyoto.Photon.Iteration.{Tracing, next, le, loop}
use gyoto.Photon.Iteration.Backward.{Returns, HasRadius, next_back, loop_lem}
use gyoto.Photon.Hit.{start_room, trace, scan, continue, hit}
use gyoto.Photon.Hit.Scan.{scan_lem, Scanned}

module _ {F I A : Type 0} (tracing : Tracing F I A) where
  open tracing use {integrator, tmin, infinite, has_data}

  -- Dates are comparable.
  abbrev pub Compares : Type 0
  Compares = (a b : F) → le tracing a b ≡ false → le tracing b a ≡ true

  trace_in :
      (r : F → F → F → F) (w : Worldline F) (a : A)
      → HasRadius tracing r
      → read_sample integrator w w.imin ≡ ok (sample_at integrator w w.imin)
      → let coord = sample_at integrator w w.imin in
        trace tracing backward a (w, w.imin)
        ≡ loop tracing integrator.maxiter backward w w.imin coord
            (integrator.init coord backward)
            false
            infinite
            a
  unfolding trace
  trace_in r w a known s = rw (s, known) refl

  trace_lem :
      (r : F → F → F → F) (w : Worldline F) (a : A)
      → HasRadius tracing r
      → has_data ≡ true
      → IsFilled w
      → 0 < w.imin
      → Returns tracing w (trace tracing backward a (w, w.imin))
  unfolding trace
  trace_lem r w a known there f room =
      let coord = sample_at integrator w w.imin in
      let (h, v, a', s, goes) =
        loop_lem tracing r integrator.maxiter known there w coord (integrator.init coord backward)
          false infinite a f room in
      (
        h,
        v,
        a',
        trace_in r w a known
              (read_sample_in integrator w w.imin f (omega arith) (omega (arith, f.low, f.high)))
            ∙ s,
        goes,
      )

  -- The loop over what is computed ended before the first sample.
  continue-before :
      (w : Worldline F) (ind : ℕ) (a : A)
      → IsFilled w
      → ind + 1 ≡ w.imin
      → continue tracing backward w ind false a ≡ trace tracing backward a (w, w.imin)
  unfolding continue start_room
  continue-before w ind a f before =
      let outside : leb w.imin ind ≡ false = ground arith in
      let other : ind == w.i0 ≡ false = ground (arith, f.low) in
      let room : ind + 1 == 0 ≡ false = ground arith in rw (outside, other, room, before) refl

  -- It ended at a sample that is past tmin_.
  continue-late :
      (w : Worldline F) (ind : ℕ) (a : A) (t : F)
      → w.imin ≤ ind
      → w.cells x0 ind ≡ some t
      → le tracing t tmin ≡ true
      → continue tracing backward w ind false a ≡ ok (false, w, a)
  unfolding continue
  continue-late w ind a t at e late =
      let inside : leb w.imin ind ≡ true = ground arith in rw (inside, e, late) refl

  continue_lem :
      (r : F → F → F → F) (w : Worldline F) (ind : ℕ) (hitt : Bool) (a : A)
      → HasRadius tracing r
      → has_data ≡ true
      → Compares
      → IsFilled w
      → 0 < w.imin
      → Scanned tracing w (ind, hitt, a)
      → Returns tracing w (continue tracing backward w ind hitt a)
  unfolding continue
  continue_lem r w ind true a known there compares f room done =
      (true, w, a, refl, (f, Extends-refl w))
  continue_lem r w ind false a known there compares f room (inl reached) = cc
  continue_lem r w ind false a known there compares f room (inr (inl before)) =
      let (h, v, a', s, goes) = trace_lem r w a known there f room in
      (h, v, a', continue-before w ind a f before ∙ s, goes)
  continue_lem r w ind false a known there compares f room (inr (inr (t, at, hi, e, late))) =
      (false, w, a, continue-late w ind a t at e (compares tmin t late), (f, Extends-refl w))

  hit_towards :
      (w : Worldline F) (start : F) (a : A)
      → w.cells x0 w.i0 ≡ some start
      → integrator.lt start tmin ≡ false
      → (out : ℕ × Bool × A)
      → scan tracing (w.x_size + 1) backward w (next backward w.i0) false (tracing.clear a) ≡ ok out
      → hit tracing w a ≡ continue tracing backward w out.0 out.1 out.2
  unfolding hit
  hit_towards w start a e past out s = rw (e, past, s) refl

  -- For an integrated worldline with a free cell before its first sample, whose initial date is not
  -- before tmin_, with `data` that is not null, a known kind of coordinates and comparable dates, and
  -- where the calls of the object, the metric and the integrator return, Photon::hit returns: it reads no cell that is not computed and stores none out of the arrays, its
  -- worldline is integrated from imin_ to imax_, and every sample it held is kept.
  pub hit_total :
      (r : F → F → F → F) (w : Worldline F) (start : F) (a : A)
      → HasRadius tracing r
      → has_data ≡ true
      → Compares
      → IsFilled w
      → 0 < w.imin
      → w.cells x0 w.i0 ≡ some start
      → integrator.lt start tmin ≡ false
      → Returns tracing w (hit tracing w a)
  hit_total r w start a known there compares f room e past =
      let below = next_back w.i0 (omega (arith, f.low)) in
      let ((ind, hitt, a'), s, done) =
        scan_lem tracing r (w.x_size + 1) w (next backward w.i0) false (tracing.clear a) known f
          room (omega (arith, f.low)) (omega (arith, f.high))
          (omega (arith, f.low, f.high, f.within)) in
      let (h, v, a'', t, goes) = continue_lem r w ind hitt a' known there compares f room done in
      (h, v, a'', hit_towards w start a e past (ind, hitt, a') s ∙ t, goes)
