-- ===== src/Scenery/Worker.antt =====
-- SceneryThreadWorker and the part of Scenery::rayTrace that starts the workers, in lib/Scenery.C.
-- The mutex makes one step of reading and moving on the shared set of coordinates; the ray tracing
-- of a pixel and the write of its cell are another step. A schedule lists whose turn it is.
pub mod Invariant
pub mod Steps
pub mod Complete
pub mod Pixels
pub mod Frame
pub mod Progress
pub mod Ranges
pub mod LateRead
mod Tests
use gyoto.Prelude.{
  ℕ, ◌+◌, ◌-◌, ◌*◌, ◌%◌, ◌≡◌, Bool, true, false, ◌&&◌, not, ltb, ◌==◌, if◌then◌else◌, Option, none,
  some, List, [], ◌∷◌, get_elem?, set, replicate, Outcome, ok, throws, undefined, ◌>>=◌,
}
use gyoto.Screen.Coord1d.{CoordType, angle_kind, pixel_kind, size_t_mod}
use gyoto.Screen.Coord2d
use gyoto.Screen.Coord2d.{Coord2dSet, same_kind}

-- A pixel, or a direction given by two angles.
pub data Target (F : Type 0) : Type 0 where
  at_pixel : (i j : ℕ) → Target F
  at_angles : (a d : F) → Target F

-- What all workers share and never change: `is_pixel`, `npix`, and whether the data are allocated
-- for the whole screen.
pub record Setup : Type 0 where
  pub is_pixel : Bool
  pub npix : ℕ
  pub alloc : Bool

-- Where a worker stands: before its critical section, with a target and the cell for its result, or
-- past the loop.
pub data Pc (F : Type 0) : Type 0 where
  ready : Pc F
  working : (target : Target F) (cell : ℕ) → Pc F
  stopped : Pc F

-- `larg->ij`, `larg->cnt`, the workers and the cells of `larg->data` written so far.
pub record System (F V : Type 0) : Type 0 where
  pub ij : Coord2dSet F
  pub cnt : ℕ
  pub workers : List (Pc F)
  pub image : ℕ → Option V

abbrev pub update {ℓ} : {A : Type ℓ} → (ℕ → Option A) → ℕ → A → ℕ → Option A
update f c v k = if c == k then some v else f k

module _ {F : Type 0} (setup : Setup) where
  open setup use {is_pixel, npix, alloc}

  unfoldable pub read : Coord2dSet F → Outcome (Target F)
  read ij = elim is_pixel [
    | true ↦ do (i, j) ← Coord2d.deref ij; ok (at_pixel i j)
    | false ↦ do (a, d) ← Coord2d.angles ij; ok (at_angles a d)
  ]

  -- size_t cell=lcnt; if (is_pixel && alloc) cell=(ijb[1]-1)*npix+ijb[0]-1;
  unfoldable pub cell_of : ℕ → Target F → ℕ
  cell_of lcnt (at_pixel i j) =
      if is_pixel && alloc
      then ((j + size_t_mod - 1) % size_t_mod * npix + i + size_t_mod - 1) % size_t_mod
      else lcnt
  cell_of lcnt (at_angles a d) = lcnt

module _ {F V : Type 0} (setup : Setup) (trace : Target F → V) where
  -- With a valid set the worker takes the target and its number; otherwise it leaves the loop.
  pub proceed : System F V → ℕ → Target F → System F V
  proceed s t target =
      if Coord2d.valid s.ij
      then record s {
        ij = Coord2d.advance s.ij;
        cnt = (s.cnt + 1) % size_t_mod;
        workers = set s.workers t (working target (cell_of setup s.cnt target));
      }
      else record s { workers = set s.workers t stopped }

  -- The critical section: the coordinates are read before they are known to be valid.
  pub fetch : System F V → ℕ → Outcome (System F V)
  unfolding proceed
  fetch s t = do target ← read setup s.ij; ok (proceed s t target)

  pub deliver : System F V → ℕ → Target F → ℕ → System F V
  deliver s t target cell = record s {
    workers = set s.workers t ready;
    image = update s.image cell (trace target);
  }

  act : System F V → ℕ → Pc F → Outcome (System F V)
  unfolding fetch deliver
  act s t ready = fetch s t
  act s t (working target cell) = ok (deliver s t target cell)
  act s t stopped = ok s

  -- Worker `t` makes its next step. An index beyond the workers makes none.
  unfoldable pub turn : System F V → ℕ → Outcome (System F V)
  unfolding act
  turn s t = elim (get_elem? s.workers t) [ none ↦ ok s | some p ↦ act s t p ]

  unfoldable pub run : System F V → List ℕ → Outcome (System F V)
  run s [] = ok s
  run s (t ∷ ts) = do s' ← turn s t; run s' ts

-- `nthreads_ - 1` threads and their parent, or the parent alone.
unfoldable pub workers_count : ℕ → Bool → ℕ
workers_count nthreads thread_safe =
    if not (ltb nthreads 2) && thread_safe then (nthreads - 1) + 1 else 1

unfoldable pub start : {F V : Type 0} → Coord2dSet F → ℕ → Bool → System F V
start ij nthreads thread_safe = record {
  ij = ij;
  cnt = 0;
  workers = replicate (workers_count nthreads thread_safe) ready;
  image = λ c. none;
}
