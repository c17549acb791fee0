-- ===== src/Scenery/Worker/Complete.antt =====
-- What a finished ray-tracing call leaves in the cells of its data.
use gyoto.Prelude.{
  ℕ, ◌<◌, ◌≡◌, inl, inr, Bool, Option, some, List, get_elem?, length, get_elem?-lt, arith, ok,
}
use gyoto.Screen.Coord1d.{size_t_mod}
use gyoto.Screen.Coord2d.{Coord2dSet}
use gyoto.Scenery.Worker.{Target, Setup, Pc, working, stopped, System, cell_of, run, start}
use gyoto.Scenery.Worker.Invariant.{IsWalk, NoConflict}
use gyoto.Scenery.Worker.Steps.{run-start-SystemInv}

-- Every worker has left its loop.
abbrev pub AllStopped : {F V : Type 0} → System F V → Type 0
AllStopped s = (t : ℕ) → t < length s.workers → get_elem? s.workers t ≡ some stopped

ready_or_stopped :
    {F : Type 0} {x : Target F} {c : ℕ} {w : Option (Pc F)}
    → w ≡ some (working x c)
    → w ≡ some stopped
    → ⊥
ready_or_stopped held stop = cc

module _ {F V : Type 0} (setup : Setup) (trace : Target F → V)
    {rest : Coord2dSet F → List (Target F)} {Fits : Coord2dSet F → Type 0}
    (walk : IsWalk setup rest Fits) (targets : List (Target F))
    (small : length targets < size_t_mod) (apart : NoConflict setup trace targets) where
  -- Whatever the interleaving of the workers, when all of them have stopped the cell of every target
  -- holds the result of ray-tracing that target, and no cell holds anything else. There are fewer than
  -- 2 ^ 64 targets, and two of them share a cell only if they have the same result.
  pub render_complete :
      (ij : Coord2dSet F) (nthreads : ℕ) (thread_safe : Bool) (ts : List ℕ) (s : System F V)
      → Fits ij
      → rest ij ≡ targets
      → run setup trace (start ij nthreads thread_safe) ts ≡ ok s
      → AllStopped s
      → ((m : ℕ) (x : Target F)
          → get_elem? targets m ≡ some x
          → s.image (cell_of setup m x) ≡ some (trace x))
        × ((c : ℕ) (v : V)
            → s.image c ≡ some v
            → (m : ℕ) × (x : Target F) × (get_elem? targets m ≡ some x)
              × (c ≡ cell_of setup m x)
              × (v ≡ trace x))
  render_complete ij nthreads thread_safe ts s fits e h stop =
      let i =
        run-start-SystemInv setup trace walk targets small apart ij nthreads thread_safe ts fits e
          h in
      let all : s.cnt ≡ length targets = i.inv.ended 0 (stop 0 i.staffed) in
      (
        λ m x g. elim (i.inv.covered m x (omega (arith, get_elem?-lt targets m g)) g) [
          | inl done ↦ done
          | inr (t, held) ↦ absurd (ready_or_stopped held (stop t (get_elem?-lt s.workers t held)))
        ],
        i.inv.clean,
      )
