-- ===== src/Worldline/Fill/Tests.antt =====
-- Runs of xFill and xExpand over natural numbers as dates.
use gyoto.Prelude.{
  ℕ, ◌+◌, ◌-◌, ◌≡◌, ◌≤◌, ◌<◌, refl, List, [], ◌∷◌, true, false, ltb, ◌==◌, if◌then◌else◌, Option,
  none, some, Outcome, ok, throws, Error, ◌⊎◌, arith,
}
use gyoto.Worldline.{Worldline, Slot, Direction, forward, backward, x0, store, expand, offset}
use gyoto.Worldline.Expand.{IsFilled, Extends, expand_lem}
use gyoto.Worldline.Fill.{Integrator, Failures, fill}
use gyoto.Worldline.Fill.Total.{fill_total, IsBlamed}

-- Each step moves the date by one, in the sense of the integration.
abbrev pub stepper : Integrator ℕ Direction
stepper = record {
  init = λ coord dir. dir;
  next_step =
      λ dir coord. (false, (λ s. elim dir [ forward ↦ coord s + 1 | backward ↦ coord s - 1 ]), dir);
  is_stop_condition = λ coord. false;
  mass_known = true;
  maxiter = 10;
  lt = ltb;
  eq = λ a b. a == b;
  nothing = 0;
}

abbrev pub sure : Failures ℕ Direction
sure = record { init_error = λ coord dir. none; step_error = λ dir coord. none }

-- One sample, in an array of three cells.
abbrev pub start : Worldline ℕ
start = record {
  x_size = 3;
  imin = 1;
  i0 = 1;
  imax = 1;
  parallel_transport = false;
  cells = λ s k. if k == 1 then some 7 else none;
}

pub start-IsFilled : IsFilled start
start-IsFilled = record {
  low = omega arith;
  high = omega arith;
  within = omega arith;
  written = λ s k lo hi a. let e : k ≡ 1 = omega arith in (7, rw e refl);
}

-- From date 7 to the first date after 11, through an expansion of the arrays.
abbrev dates : Outcome (Worldline ℕ) → List (Option ℕ)
dates (ok w) = w.cells x0 w.imin ∷ w.cells x0 w.i0 ∷ w.cells x0 w.imax ∷ []
dates r = []

forward_run : dates (fill stepper sure start 11 false) ≡ some 7 ∷ some 7 ∷ some 12 ∷ []
unfolding fill store expand
forward_run = refl

backward_run : dates (fill stepper sure start 3 false) ≡ some 2 ∷ some 7 ∷ some 7 ∷ []
unfolding fill store expand
backward_run = refl

-- nextStep throws at date 9, and is still called there on the way to 11.
abbrev stumbling : Failures ℕ Direction
stumbling = record {
  init_error = λ coord dir. none;
  step_error = λ dir coord. if coord x0 == 9 then some Error.overflow else none;
}

stumbling_run : fill stepper stumbling start 11 false ≡ throws Error.overflow
unfolding fill store expand
stumbling_run = refl

fill_total_example :
    ((w' : Worldline ℕ) × (fill stepper sure start 11 false ≡ ok w')
      × (IsFilled w' × Extends start w'))
    ⊎ ((e : Error) × (fill stepper sure start 11 false ≡ throws e) × IsBlamed stepper sure e)
fill_total_example = fill_total stepper sure start 11 false refl start-IsFilled

expand_lem_example :
    let (w', ind) = expand start backward in
    IsFilled w'
    × ((s : Slot) (k : ℕ)
        → start.imin ≤ k
        → k ≤ start.imax
        → w'.cells s (k + offset start backward) ≡ start.cells s k)
    × (w'.imin ≡ start.imin + offset start backward)
    × (w'.i0 ≡ start.i0 + offset start backward)
    × (w'.imax ≡ start.imax + offset start backward)
    × (backward ≡ forward → start.imax ≡ start.x_size - 1 → (ind ≡ w'.imax) × (ind + 1 < w'.x_size))
    × (backward ≡ backward → start.imin ≡ 0 → (ind ≡ w'.imin) × (0 < ind))
expand_lem_example = expand_lem start backward start-IsFilled
