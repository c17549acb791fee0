-- ===== src/Worldline/Fill.antt =====
-- Worldline::xFill, in lib/Worldline.C: integrate until a date is passed. The integrator state
-- (WorldlineIntegState.C), the metric and the arithmetic on `double` are the parameter `Integrator`, and
-- what the calls of the integrator state throw is the parameter `Failures`.
pub mod Tests
pub mod Grown
pub mod GoesOn
pub mod Total
use gyoto.Prelude.{
  ℕ, zero, suc, ◌+◌, ◌-◌, ◌^◌, ◌≡◌, Bool, true, false, ◌&&◌, ◌||◌, not, ◌==◌, if◌then◌else◌, Option,
  none, some, List, [], ◌∷◌, Outcome, ok, throws, undefined, or_undefined, require, Error, ◌>>=◌,
  ◌>>◌,
}
use gyoto.Worldline.{
  Worldline, Slot, Sample, Direction, forward, backward, allocated, expand, store, tau, x0, x1, x2,
  x3, x0dot, x1dot, x2dot, x3dot, ep0, ep1, ep2, ep3, et0, et1, et2, et3,
}

-- What the calls answer where they return; nothing is asked of it where `Failures` has an error for them.
pub record Integrator (F I : Type 0) : Type 0 where
  -- state_->init(this, coord, dir*delta_)
  pub init : Sample F → Direction → I
  -- state_->nextStep(coord, tau): whether to stop, and the next sample
  pub next_step : I → Sample F → Bool × Sample F × I
  -- metric_->isStopCondition(coord)
  pub is_stop_condition : Sample F → Bool
  -- getMass() is 0 or 1
  pub mass_known : Bool
  pub maxiter : ℕ
  pub lt : F → F → Bool
  pub eq : F → F → Bool
  -- what stands in a sample for the arrays that are not allocated
  pub nothing : F

-- The errors that the calls of the integrator throw: init where the metric is not set, nextStep for a step
-- that is not what was asked for, and so on.
pub record Failures (F I : Type 0) : Type 0 where
  pub init_error : Sample F → Direction → Option Error
  pub step_error : I → Sample F → Option Error

abbrev pub no_error : Option Error → Outcome (Unit {0})
no_error none = ok tt
no_error (some message) = throws message

abbrev pub slots : List Slot
slots =
    tau ∷ x0 ∷ x1 ∷ x2 ∷ x3 ∷ x0dot ∷ x1dot ∷ x2dot ∷ x3dot ∷ ep0 ∷ ep1 ∷ ep2 ∷ ep3 ∷ et0 ∷ et1
    ∷ et2 ∷ et3 ∷ []

abbrev pub is_written {ℓ} : {A : Type ℓ} → Option A → Bool
is_written none = false
is_written (some a) = true

abbrev pub value_or {ℓ} : {A : Type ℓ} → A → Option A → A
value_or d none = d
value_or d (some a) = a

abbrev pub next_index : Direction → ℕ → ℕ
next_index forward ind = ind + 1
next_index backward ind = ind - 1

-- The counter of iterations is a size_t that is compared after it is raised.
abbrev pub rounds_of : ℕ → ℕ
rounds_of n = if n == 0 then 2 ^ 64 else n

module _ {F : Type 0} where
  pub readable : Worldline F → ℕ → List Slot → Bool
  readable w ind [] = true
  readable w ind (s ∷ ss) = (not (allocated w s) || is_written (w.cells s ind)) && readable w ind ss

  -- The arrays are expanded where the last sample stands at their end.
  pub make_room : Direction → Worldline F → ℕ → Worldline F × ℕ
  make_room forward w ind =
      if ind == w.x_size - 1 then expand (record w { imax = w.x_size - 1 }) forward else (w, ind)
  make_room backward w ind = if ind == 0 then expand (record w { imin = 0 }) backward else (w, ind)

  -- if (dir==1) imax_=ind; else imin_=ind;
  abbrev pub close : Direction → Worldline F → ℕ → Worldline F
  close forward w ind = record w { imax = ind }
  close backward w ind = record w { imin = ind }

  -- Where the integration starts from, after the arrays have been expanded if they are full.
  pub start_from : Direction → Worldline F → Worldline F × ℕ
  start_from forward w = if w.imax == w.x_size - 1 then expand w forward else (w, w.imax)
  start_from backward w = if w.imin == 0 then expand w backward else (w, w.imin)

module _ {F I : Type 0} (integrator : Integrator F I) where
  open integrator use {is_stop_condition, lt, eq, nothing}

  -- getCoord(ind, coord) and tau_[ind]: all the arrays are read.
  pub read_sample : Worldline F → ℕ → Outcome (Sample F)
  unfolding readable
  read_sample w ind =
      if readable w ind slots then ok (λ s. value_or nothing (w.cells s ind)) else undefined

  abbrev pub passed : Direction → F → F → Bool
  passed forward t tlim = lt tlim t
  passed backward t tlim = lt t tlim

  -- Store the sample of an iteration; go on unless this was the last one or the date is passed.
  pub keep_sample :
      Bool
      → Direction
      → Slot
      → F
      → Worldline F
      → ℕ
      → Bool × Sample F × I
      → (Worldline F → ℕ → Sample F → I → Outcome (Worldline F × ℕ))
      → Outcome (Worldline F × ℕ)
  unfolding make_room
  keep_sample last dir time tlim w ind (stop, coord, state) go_on =
      let room = make_room dir w ind in
      let ind' = next_index dir room.1 in
      do
        w' ← store room.0 ind' coord
        elim (stop || last || passed dir (coord time) tlim) [
          | true ↦ ok (w', ind')
          | false ↦ go_on w' ind' coord state
        ]

  -- An iteration, after nextStep: it ends the loop where the date has not changed or the metric says
  -- so, without storing the sample.
  pub iteration :
      Bool
      → Direction
      → Slot
      → F
      → Worldline F
      → ℕ
      → Bool × Sample F × I
      → (Worldline F → ℕ → Sample F → I → Outcome (Worldline F × ℕ))
      → F
      → Outcome (Worldline F × ℕ)
  unfolding keep_sample
  iteration last dir time tlim w ind (stop, coord, state) go_on previous =
      elim (eq (coord x0) previous || is_stop_condition coord) [
        | true ↦ ok (w, ind)
        | false ↦ keep_sample last dir time tlim w ind (stop, coord, state) go_on
      ]

module _ {F I : Type 0} (integrator : Integrator F I) (failures : Failures F I) where
  open integrator use {init, next_step, mass_known, maxiter, lt}
  open failures use {init_error, step_error}

  -- The loop, with the iterations that `maxiter_` still allows. The last of these sets `stopcond`.
  pub loop : ℕ → Direction → Slot → F → Worldline F → ℕ → Sample F → I → Outcome (Worldline F × ℕ)
  unfolding iteration
  loop zero dir time tlim w ind coord state = ok (w, ind)
  loop (suc rounds) dir time tlim w ind coord state =
      let go_on = loop rounds dir time tlim in
      do
        no_error (step_error state coord)
        previous ← or_undefined (w.cells x0 ind)
        iteration integrator (rounds == 0) dir time tlim w ind (next_step state coord) go_on
            previous

  pub integrate : Direction → Slot → F → Worldline F × ℕ → Outcome (Worldline F)
  unfolding loop read_sample
  integrate dir time tlim (w, ind) = do
    require mass_known Error.unrecognized_mass
    coord ← read_sample integrator w ind
    no_error (init_error coord dir)
    (w', ind') ← loop (rounds_of maxiter) dir time tlim w ind coord (init coord dir)
    ok (close dir w' ind')

  -- xFill(tlim, proper)
  unfoldable pub fill : Worldline F → F → Bool → Outcome (Worldline F)
  unfolding integrate start_from
  fill w tlim proper =
      let time = if proper then tau else x0 in
      do
        last ← or_undefined (w.cells time w.imax)
        if lt last tlim then integrate forward time tlim (start_from forward w) else (do
          first ← or_undefined (w.cells time w.imin)
          if lt tlim first then integrate backward time tlim (start_from backward w) else ok w)
