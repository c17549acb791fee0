-- ===== src/Scenery/Mpi/Manager/Tests.antt =====
-- Two worker processes over two pixels of a screen of four columns; the second is told first that all is done.
use gyoto.Prelude.{
  ℕ, zero, suc, ◌+◌, ◌≡◌, ◌≤◌, ◌||◌, ◌==◌, refl, true, List, [], ◌∷◌, arith, ok, Outcome, throws,
  undefined,
}
use gyoto.Screen.Coord1d
use gyoto.Screen.Coord1d.{range}
use gyoto.Screen.Coord1d.Walk as Walk1d
use gyoto.Screen.Coord2d
use gyoto.Screen.Coord2d.{Coord2dSet, grid}
use gyoto.Screen.Coord2d.Walk
use gyoto.Scenery.Worker.{Target, at_pixel, System, cell_of, turn, run, start, workers_count, read}
use gyoto.Scenery.Worker.Invariant.{NoConflict}
use gyoto.Scenery.Worker.Complete.{AllStopped}
use gyoto.Scenery.Worker.Pixels.{pixel_setup, pixel_targets, pixels-IsWalk}
use gyoto.Scenery.Worker.Frame.{AllOnScreen, pixels_apart}
use gyoto.Scenery.Mpi.Manager.{Manager, give, receive, arrival, arrivals, start_manager}
use gyoto.Scenery.Mpi.Manager.Complete.{manager_finishes}
use gyoto.Scenery.Mpi.Manager.Threads.{value_in, arrivals-run}
use gyoto.Scenery.Mpi.Triage.{Result, delivered}
use gyoto.Scenery.Quantities.{intensity, spectrum, bit, Word, spectral_quantities_count}

-- Columns 2 and 3 of row 5.
abbrev small_grid : Coord2dSet ℕ
small_grid = grid (range 2 3 1 2 2) (range 5 5 1 1 5)

-- The values of a pixel, of which an intensity and a spectrum are requested.
abbrev values : Target ℕ → Result ℕ
values (at_pixel i j) intensity = (i + j) ∷ []
values (at_pixel i j) spectrum = i ∷ j ∷ []
values x q = []

abbrev asked : Word
asked k = (k == bit intensity) || (k == bit spectrum)

abbrev nothing : Result ℕ → Result ℕ
nothing v q = []

abbrev stored : Target ℕ → Result ℕ
stored x = delivered nothing asked (values x)

-- The last argument is for a run that fails.
last_manager : {F V : Type 0} → Outcome (Manager F V) → Manager F V → Manager F V
unfolding arrivals arrival receive give start_manager read cell_of Coord2d.deref Coord1d.deref
    Coord2d.valid Coord1d.valid Coord2d.advance Coord1d.advance Coord1d.begin Walk.rest Walk1d.rest
last_manager (ok m) d = m
last_manager (throws e) d = d
last_manager undefined d = d

abbrev first : Manager ℕ (Result ℕ)
first = start_manager small_grid 2

abbrev order : List ℕ
order = 0 ∷ 1 ∷ 1 ∷ 0 ∷ []

abbrev final : Manager ℕ (Result ℕ)
final = last_manager (arrivals (pixel_setup 4 true) stored first order) first

final-arrivals : arrivals (pixel_setup 4 true) stored first order ≡ ok final
unfolding last_manager
final-arrivals = refl

none_left : final.working_count ≡ 0
unfolding last_manager
none_left = refl

on_screen : AllOnScreen 4 ((2, 5) ∷ (3, 5) ∷ [])
on_screen zero i j g = ground arith
on_screen (suc zero) i j g = ground arith
on_screen (suc (suc m)) i j g = cc

abbrev pixels : List (Target ℕ)
pixels = pixel_targets ((2, 5) ∷ (3, 5) ∷ [])

no_conflict : (trace : Target ℕ → Result ℕ) → NoConflict (pixel_setup 4 true) trace pixels
no_conflict trace = pixels_apart 4 trace ((2, 5) ∷ (3, 5) ∷ []) on_screen

small_grid-IsPixelSets : Walk.IsPixelSets small_grid
unfolding last_manager
small_grid-IsPixelSets = (omega arith, omega arith, λ e. e)

last_system : {F V : Type 0} → Outcome (System F V) → System F V → System F V
unfolding run turn start workers_count read cell_of Coord2d.deref Coord1d.deref Coord2d.valid
    Coord1d.valid Coord2d.advance Coord1d.advance Coord1d.begin
last_system (ok s) d = s
last_system (throws e) d = d
last_system undefined d = d

abbrev threads : System ℕ (Result ℕ)
threads =
    last_system (run (pixel_setup 4 true) values (start small_grid 1 true) (0 ∷ 0 ∷ 0 ∷ 0 ∷ 0 ∷ []))
      (start small_grid 1 true)

threads-run :
    run (pixel_setup 4 true) values (start small_grid 1 true) (0 ∷ 0 ∷ 0 ∷ 0 ∷ 0 ∷ []) ≡ ok threads
unfolding last_system
threads-run = refl

threads-AllStopped : AllStopped threads
unfolding last_system
threads-AllStopped = elim [ zero ↦ λ lt. refl | suc t ↦ λ lt. absurd (omega arith) ]

one_spectrum : spectral_quantities_count asked ≤ 1
unfolding spectral_quantities_count
one_spectrum = omega arith

manager_finishes_example :
    (m : Manager ℕ (Result ℕ)) × (arrivals (pixel_setup 4 true) stored first (1 ∷ 1 ∷ 7 ∷ [])
      ≡ ok m)
    × ((us : List ℕ) × (m' : Manager ℕ (Result ℕ)) × (arrivals (pixel_setup 4 true) stored m us
          ≡ ok m')
        × (m'.working_count ≡ 0))
unfolding last_manager
manager_finishes_example =
    manager_finishes (pixel_setup 4 true) stored (pixels-IsWalk 4 true) pixels (omega arith)
      (no_conflict stored) small_grid 2 (1 ∷ 1 ∷ 7 ∷ []) (omega arith) small_grid-IsPixelSets refl

arrivals-run_example : value_in spectrum (final.image 17) ≡ value_in spectrum (threads.image 17)
unfolding last_manager
arrivals-run_example =
    arrivals-run (pixel_setup 4 true) values (pixels-IsWalk 4 true) pixels (omega arith)
      (no_conflict values) nothing asked small_grid 2 1 true order (0 ∷ 0 ∷ 0 ∷ 0 ∷ 0 ∷ []) final
      threads one_spectrum (omega arith) small_grid-IsPixelSets refl final-arrivals none_left
      threads-run threads-AllStopped 17 spectrum refl
