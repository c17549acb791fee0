-- ===== src/Photon/Hit.antt =====
-- Photon::hit, in lib/Photon.C: integrate the photon until it has passed the object or is absorbed,
-- after a look at what is computed already.
mod Tests
pub mod Scan
pub mod Total
use gyoto.Prelude.{
  ℕ, zero, suc, ◌+◌, ◌-◌, ◌^◌, Bool, true, false, ◌&&◌, ◌||◌, not, leb, ◌==◌, if◌then◌else◌, Option,
  none, some, Outcome, ok, throws, Error, or_undefined, require, undefined, ◌>>=◌, ◌>>◌,
}
use gyoto.Worldline.{
  Worldline, Sample, Direction, forward, backward, tau, x0, x1, x2, x3, expand, store,
}
use gyoto.Worldline.Fill.{Integrator, read_sample}
use gyoto.Photon.Crossings.{Equator, given_up}
use gyoto.Photon.Iteration.{Tracing, next, le, radius_of, radius_at, loop}

abbrev pub reverse : Direction → Direction
reverse forward = backward
reverse backward = forward

abbrev pub in_computed : {F : Type 0} → Direction → Worldline F → ℕ → Bool
in_computed forward w ind = leb ind w.imax
in_computed backward w ind = leb w.imin ind

-- Where the integration starts, after the arrays have been expanded if it is their end.
pub start_room : {F : Type 0} → Direction → Worldline F → ℕ → Worldline F × ℕ
start_room forward w ind = if ind == w.x_size then expand w forward else (w, ind)
start_room backward w ind = if ind == 0 then expand w backward else (w, ind)

module _ {F I A : Type 0} (tracing : Tracing F I A) where
  open tracing use {integrator, tmin, r_max, infinite, impact, clear}

  -- int dir=(tmin_>x0_[i0_])?1:-1;
  abbrev pub direction : F → Direction
  direction start = if integrator.lt start tmin then forward else backward

  -- x0_[ind] is not past tmin_
  abbrev pub in_time : Direction → F → Bool
  in_time forward t = le tracing t tmin
  in_time backward t = le tracing tmin t

  -- if (rr<rmax) hitt = object_ -> Impact(this, ind, data);
  abbrev pub impact_near : Worldline F → ℕ → F → A → Bool × A
  impact_near w ind rr a = if integrator.lt rr r_max then impact w ind a else (false, a)

  -- A round of the loop over what is computed already, at a sample with date `t`.
  pub scan_at :
      (ℕ → Bool → A → Outcome (ℕ × Bool × A))
      → Direction
      → Worldline F
      → ℕ
      → Bool
      → A
      → F
      → Outcome (ℕ × Bool × A)
  scan_at rest dir w ind hitt a t = elim (in_time dir t) [
    | false ↦ ok (ind, hitt, a)
    | true ↦ elim hitt [
      | true ↦ ok (ind, true, a)
      | false ↦ (do
        rr ← radius_at tracing w ind
        rest (next dir ind) (impact_near w ind rr a).0 (impact_near w ind rr a).1)
    ]
  ]

  -- That loop, and `ind`, `hitt` and the rest after it.
  pub scan : ℕ → Direction → Worldline F → ℕ → Bool → A → Outcome (ℕ × Bool × A)
  unfolding scan_at
  scan zero dir w ind hitt a = ok (ind, hitt, a)
  scan (suc fuel) dir w ind hitt a =
      let rest = scan fuel dir w in
      if in_computed dir w ind
      then or_undefined (w.cells x0 ind) >>= scan_at rest dir w ind hitt a
      else ok (ind, hitt, a)

  -- The test after that loop.
  abbrev pub past_tmin : Direction → Worldline F → ℕ → Outcome Bool
  past_tmin forward w ind =
      if ind == w.imax
      then (or_undefined (w.cells x0 ind) >>= λ t. ok (le tracing tmin t))
      else ok false
  past_tmin backward w ind =
      if leb w.imin ind
      then (or_undefined (w.cells x0 ind) >>= λ t. ok (le tracing t tmin))
      else ok false

  pub trace : Direction → A → Worldline F × ℕ → Outcome (Bool × Worldline F × A)
  trace dir a (w, ind) = do
    coord ← read_sample integrator w ind
    rr ← radius_of tracing (coord x1) (coord x2) (coord x3)
    loop tracing integrator.maxiter dir w ind coord (integrator.init coord dir) false infinite a

  -- After the loop over what is computed.
  pub continue : Direction → Worldline F → ℕ → Bool → A → Outcome (Bool × Worldline F × A)
  unfolding trace start_room
  continue dir w ind true a = ok (true, w, a)
  continue dir w ind false a = do
    over ← past_tmin dir w ind
    elim over [
      | true ↦ ok (false, w, a)
      | false ↦ trace dir a (start_room dir w (if ind == w.i0 then ind else next (reverse dir) ind))
    ]

  -- hit(data): the result, the worldline, and what else is changed
  pub hit : Worldline F → A → Outcome (Bool × Worldline F × A)
  unfolding scan continue
  hit w a = do
    start ← or_undefined (w.cells x0 w.i0)
    (ind, hitt, a') ←
        scan (w.x_size + 1) (direction start) w (next (direction start) w.i0) false (clear a)
    continue (direction start) w ind hitt a'
