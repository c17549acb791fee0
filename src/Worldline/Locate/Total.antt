-- ===== src/Worldline/Locate/Total.antt =====
-- getCoord answers each date from samples around it.
use gyoto.Prelude.{◌≡◌, ◌≤◌, ◌⊎◌, Bool, List, [], ◌∷◌, Outcome, ok, throws, Error}
use gyoto.Worldline.{Worldline, Sample}
use gyoto.Worldline.Expand.{IsFilled, Extends}
use gyoto.Worldline.Fill.{Integrator, Failures}
use gyoto.Worldline.Locate.{Cursors, Geometry}
use gyoto.Worldline.Locate.Extend.{IsOutside, MayThrow}
use gyoto.Worldline.Locate.Answers.{Answers, AllAnswered}

module _ {F I : Type 0} (integrator : Integrator F I) (failures : Failures F I)
    (geometry : Geometry F) (proper : Bool) where
  open integrator use {lt, eq}

  -- The cursors are indices in use.
  abbrev InUse : Worldline F → Cursors → Type 0
  InUse w c = (w.imin ≤ c.curl) × (c.curl ≤ c.curh) × (c.curh ≤ w.imax)

  -- A round that answers the date, or throws. It extends the worldline, or
  -- throws, only for a date outside.
  abbrev Located : Worldline F → F → Outcome (Worldline F × Cursors × Sample F) → Type 0
  Located w date r =
      ((w' : Worldline F) × (c' : Cursors) × (coord : Sample F) × (r ≡ ok (w', c', coord))
        × IsFilled w'
        × Extends w w'
        × (IsOutside integrator proper w date ⊎ (w' ≡ w))
        × InUse w' c'
        × Answers integrator geometry proper w' date coord)
      ⊎ ((e : Error) × (r ≡ throws e)
          × MayThrow integrator failures proper e
          × IsOutside integrator proper w date)

  -- All dates answered over one worldline, or the error.
  abbrev pub AllLocated : Worldline F → List F → Outcome (Worldline F × List (Sample F)) → Type 0
  AllLocated w dates r =
      ((w' : Worldline F) × (coords : List (Sample F)) × (r ≡ ok (w', coords))
        × IsFilled w'
        × Extends w w'
        × AllAnswered integrator geometry proper w' dates coords)
      ⊎ ((e : Error) × (r ≡ throws e) × MayThrow integrator failures proper e)

  abbrev pub AllInside : Worldline F → List F → Type 0
  AllInside w [] = Unit
  AllInside w (date ∷ dates) = (¬ (IsOutside integrator proper w date)) × AllInside w dates

  abbrev pub Answered : Worldline F → List F → Outcome (Worldline F × List (Sample F)) → Type 0
  Answered w dates r =
      (coords : List (Sample F)) × (r ≡ ok (w, coords))
      × AllAnswered integrator geometry proper w dates coords
