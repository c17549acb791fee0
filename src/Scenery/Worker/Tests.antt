-- ===== src/Scenery/Worker/Tests.antt =====
-- Two workers over three pixels of a screen of four columns.
use gyoto.Prelude.{
  ℕ, zero, suc, ◌*◌, ◌+◌, ◌-◌, ◌≡◌, ◌≢◌, refl, true, some, List, [], ◌∷◌, get_elem?, arith, ok,
  Outcome, throws, undefined,
}
use gyoto.Screen.Coord1d
use gyoto.Screen.Coord1d.{range, indices, size_t_mod}
use gyoto.Screen.Coord1d.Walk as Walk1d
use gyoto.Screen.Coord2d
use gyoto.Screen.Coord2d.{Coord2dSet, grid, bucket}
use gyoto.Screen.Coord2d.Walk
use gyoto.Scenery.Worker.{
  Target, at_pixel, stopped, System, cell_of, turn, run, start, workers_count, read,
}
use gyoto.Scenery.Worker.Invariant.{NoConflict}
use gyoto.Scenery.Worker.Complete.{AllStopped, render_complete}
use gyoto.Scenery.Worker.Pixels.{pixel_setup, pixel_targets, pixels-IsWalk}
use gyoto.Scenery.Worker.Frame.{AllOnScreen, frame_complete, pixels_apart}
use gyoto.Scenery.Worker.Ranges.{ranges-IsWalk, read-AreRanges}
use gyoto.Scenery.Worker.Progress.{workers_finish}
use gyoto.Scenery.Worker.LateRead.{at_position, no_defined_end}

-- Columns 2 and 3 of row 5.
abbrev small_grid : Coord2dSet ℕ
small_grid = grid (range 2 3 1 2 2) (range 5 5 1 1 5)

abbrev schedule : List ℕ
schedule = 0 ∷ 1 ∷ 1 ∷ 1 ∷ 0 ∷ 0 ∷ []

last_of : {F V : Type 0} → Outcome (System F V) → System F V → System F V
unfolding run turn start workers_count read cell_of Coord2d.deref Coord1d.deref Coord2d.valid
    Coord1d.valid Coord2d.advance Coord1d.advance Coord1d.begin Walk.rest Walk1d.rest
last_of (ok s) d = s
last_of (throws e) d = d
last_of undefined d = d

-- The result for a pixel is the pixel itself.
abbrev same : Target ℕ → Target ℕ
same x = x

abbrev first : System ℕ (Target ℕ)
first = start small_grid 2 true

abbrev final : System ℕ (Target ℕ)
final = last_of (run (pixel_setup 4 true) same first schedule) first

final-run : run (pixel_setup 4 true) same first schedule ≡ ok final
unfolding last_of
final-run = refl

final-AllStopped : AllStopped final
unfolding last_of
final-AllStopped = elim [
  | zero ↦ λ lt. refl
  | suc zero ↦ λ lt. refl
  | suc (suc t) ↦ λ lt. absurd (omega arith)
]

on_screen : AllOnScreen 4 ((2, 5) ∷ (3, 5) ∷ [])
on_screen zero i j g = ground arith
on_screen (suc zero) i j g = ground arith
on_screen (suc (suc m)) i j g = cc

no_conflict : NoConflict (pixel_setup 4 true) same (pixel_targets ((2, 5) ∷ (3, 5) ∷ []))
no_conflict = pixels_apart 4 same ((2, 5) ∷ (3, 5) ∷ []) on_screen

small_grid-IsPixelSets : Walk.IsPixelSets small_grid
unfolding last_of
small_grid-IsPixelSets = (omega arith, omega arith, λ e. e)

render_complete_example : final.image 18 ≡ some (at_pixel 3 5)
unfolding last_of
render_complete_example =
    (render_complete (pixel_setup 4 true) same (pixels-IsWalk 4 true)
        (pixel_targets ((2, 5) ∷ (3, 5) ∷ [])) (omega arith) no_conflict small_grid 2 true schedule
        final small_grid-IsPixelSets refl final-run final-AllStopped).0
      1 (at_pixel 3 5) refl

frame_complete_example : final.image ((5 - 1) * 4 + (2 - 1)) ≡ some (at_pixel 2 5)
unfolding last_of
frame_complete_example =
    (frame_complete 4 same small_grid 2 true schedule final small_grid-IsPixelSets (omega arith)
        on_screen final-run final-AllStopped).0
      0 2 5 refl

workers_finish_example :
    (s : System ℕ (Target ℕ)) × (run (pixel_setup 4 true) same first schedule ≡ ok s)
    × ((us : List ℕ) × (s' : System ℕ (Target ℕ)) × (run (pixel_setup 4 true) same s us ≡ ok s')
        × AllStopped s')
unfolding last_of
workers_finish_example =
    workers_finish (pixel_setup 4 true) same (ranges-IsWalk 4 true) (read-AreRanges 4 true)
      (pixel_targets ((2, 5) ∷ (3, 5) ∷ [])) (omega arith) no_conflict small_grid 2 true schedule
      (small_grid-IsPixelSets, omega arith) refl

abbrev listed : Outcome (System ℕ (Target ℕ))
listed =
    run (pixel_setup 4 true) same
      (start (at_position 4 true same (2 ∷ []) (5 ∷ []) refl (omega arith) 0) 1 true) (0 ∷ 0 ∷ [])

no_defined_end_example : get_elem? (last_of listed first).workers 0 ≢ some stopped
unfolding last_of
no_defined_end_example =
    no_defined_end 4 true same (2 ∷ []) (5 ∷ []) refl (omega arith) 1 true (0 ∷ 0 ∷ []) _ refl 0

-- The third step of the worker is the undefined read.
listed_undefined : run (pixel_setup 4 true) same (last_of listed first) (0 ∷ []) ≡ undefined
unfolding last_of
listed_undefined = refl
