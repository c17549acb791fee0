-- ===== src/Worldline/Locate.antt =====
-- Worldline::getCoord(dates, ...), in lib/Worldline.C: for each date, extend the worldline if it does
-- not reach the date, and find the samples around it. The interpolation between two samples computes
-- in floating point and is a parameter, as is checkPhiTheta.
mod Tests
pub mod Search
pub mod Extend
pub mod Bracket
pub mod Answers
pub mod Total
use gyoto.Prelude.{
  ℕ, zero, suc, ◌+◌, ◌-◌, ◌/◌, Bool, true, false, ◌||◌, ltb, ◌==◌, if◌then◌else◌, Option, none,
  some, List, [], ◌∷◌, Outcome, ok, throws, undefined, or_undefined, Error, ◌>>=◌,
}
use gyoto.Worldline.{Worldline, Slot, Sample, tau, x0, x2, x3, x2dot}
use gyoto.Worldline.Fill.{Integrator, Failures, fill, read_sample}

-- `curl` and `curh`, which keep their values from one date to the next.
pub record Cursors : Type 0 where
  pub curl : ℕ
  pub curh : ℕ

pub record Geometry (F : Type 0) : Type 0 where
  -- metric_->coordKind() == GYOTO_COORDKIND_SPHERICAL
  pub spherical : Bool
  -- checkPhiTheta, on x2, x3 and x2dot
  pub check_phi_theta : F → F → F → F × F × F
  -- what is written at a date between the samples at two indices
  pub interpolate : Sample F → Sample F → F → Sample F

-- time_ = proper?tau_:x0_
abbrev pub time_slot : Bool → Slot
time_slot proper = if proper then tau else x0

abbrev pub replaced : {F : Type 0} → F × F × F → Sample F → Sample F
replaced (theta, phi, theta_dot) coord x2 = theta
replaced (theta, phi, theta_dot) coord x3 = phi
replaced (theta, phi, theta_dot) coord x2dot = theta_dot
replaced (theta, phi, theta_dot) coord s = coord s

-- date >= t
abbrev pub ge : {F I : Type 0} → Integrator F I → F → F → Bool
ge integrator date t = integrator.lt t date || integrator.eq date t

abbrev pub time : {F : Type 0} → Bool → Worldline F → ℕ → Option F
time proper w k = w.cells (time_slot proper) k

-- if (curl == curh || beyond) GYOTO_ERROR(...)
abbrev pub reached : {F : Type 0} → Worldline F → Cursors → Bool → Outcome (Worldline F × Cursors)
reached w c beyond =
    if (c.curl == c.curh) || beyond then throws Error.date_out_of_reach else ok (w, c)

module _ {F I : Type 0} (integrator : Integrator F I) (proper : Bool) where
  open integrator use {lt}

  -- while (curh-curl>1): with curh < curl the difference wraps and the next read is out of bounds.
  pub search : ℕ → Worldline F → F → Cursors → Outcome Cursors
  search zero w date c = ok c
  search (suc fuel) w date c =
      let rest = search fuel w date in
      let curm = c.curl + (c.curh - c.curl) / 2 in
      if ltb c.curh c.curl
      then undefined
      else if ltb 1 (c.curh - c.curl)
      then (do
        t ← or_undefined (time proper w curm)
        if ge integrator date t
            then rest (record c { curl = curm })
            else rest (record c { curh = curm }))
      else ok c

  -- The cursors of the previous date, moved where they do not enclose the date.
  pub reuse : Worldline F → F → Cursors → Outcome (Worldline F × Cursors)
  reuse w date c = do
    high ← or_undefined (time proper w c.curh)
    if ge integrator date high then ok (w, record { curl = c.curh; curh = w.imax }) else (do
      low ← or_undefined (time proper w c.curl)
      if lt date low then ok (w, record { curl = w.imin; curh = c.curl }) else ok (w, c))

module _ {F I : Type 0} (integrator : Integrator F I) (failures : Failures F I)
    (proper : Bool) where
  open integrator use {lt}

  pub extend_future : Worldline F → F → Outcome (Worldline F × Cursors)
  extend_future w date = do
    w' ← fill integrator failures w date proper
    last ← or_undefined (time proper w' w'.imax)
    reached w' (record { curl = w.imax; curh = w'.imax }) (lt last date)

  -- The upper index is counted from the end of the arrays while xFill may expand them.
  pub extend_past : Worldline F → F → Outcome (Worldline F × Cursors)
  extend_past w date = do
    w' ← fill integrator failures w date proper
    first ← or_undefined (time proper w' w'.imin)
    reached w' (record { curl = w'.imin; curh = w'.x_size - (w.x_size - w.imin) }) (lt date first)

  -- The branches that follow the test date == time_[imax_].
  pub bracket : Worldline F → F → Cursors → F → Outcome (Worldline F × Cursors)
  unfolding extend_future extend_past reuse
  bracket w date c last = if lt last date then extend_future w date else (do
    first ← or_undefined (time proper w w.imin)
    if lt date first then extend_past w date else reuse integrator proper w date c)

module _ {F I : Type 0} (integrator : Integrator F I) (geometry : Geometry F) (proper : Bool) where
  open integrator use {eq}
  open geometry use {spherical, check_phi_theta, interpolate}

  -- What is written where the date is that of a sample.
  abbrev pub at_sample : Sample F → Sample F
  at_sample coord =
      if spherical
      then replaced (check_phi_theta (coord x2) (coord x3) (coord x2dot)) coord
      else coord

  pub between : Worldline F → F → Cursors → Outcome (Sample F)
  between w date c = do
    low ← read_sample integrator w c.curl
    t ← or_undefined (time proper w c.curl)
    if eq date t
        then ok (at_sample low)
        else (do high ← read_sample integrator w c.curh; ok (interpolate low high date))

module _ {F I : Type 0} (integrator : Integrator F I) (failures : Failures F I)
    (geometry : Geometry F) (proper : Bool) where
  open integrator use {eq}

  pub enclose : Worldline F → Cursors → F → F → Outcome (Worldline F × Cursors × Sample F)
  unfolding bracket search between
  enclose w c date last = do
    (w', c') ← bracket integrator failures proper w date c last
    found ← search integrator proper (c'.curh - c'.curl) w' date c'
    coord ← between integrator geometry proper w' date found
    ok (w', found, coord)

  -- One round of the loop over dates.
  pub locate : Worldline F → Cursors → F → Outcome (Worldline F × Cursors × Sample F)
  unfolding enclose
  locate w c date = do
    last ← or_undefined (time proper w w.imax)
    elim (eq date last) [
      | true ↦ read_sample integrator w w.imax >>= λ coord.
          ok (w, c, at_sample integrator geometry proper coord)
      | false ↦ enclose w c date last
    ]

  pub locate_all : Worldline F → Cursors → List F → Outcome (Worldline F × List (Sample F))
  unfolding locate
  locate_all w c [] = ok (w, [])
  locate_all w c (date ∷ dates) = do
    (w', c', coord) ← locate w c date
    (last, coords) ← locate_all w' c' dates
    ok (last, coord ∷ coords)

  pub get_coord : Worldline F → List F → Outcome (Worldline F × List (Sample F))
  unfolding locate_all
  get_coord w dates = locate_all w (record { curl = w.imin; curh = w.imax }) dates
