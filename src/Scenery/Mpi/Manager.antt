-- ===== src/Scenery/Mpi/Manager.antt =====
-- The loop of the MPI manager in Scenery::rayTrace, lib/Scenery.C, and its worker processes. A worker
-- has one message on its way to the manager: at first a dummy one (ready), then the result of the target
-- that it was given (working, with cell[w]), and none once it was told that all is done (stopped). Which
-- message the manager receives next, recv(any_source), is the schedule.
pub mod Busy
pub mod Rounds
pub mod Complete
pub mod Threads
mod Tests
use gyoto.Prelude.{
  ℕ, ◌+◌, ◌-◌, ◌%◌, Bool, true, false, ◌==◌, if◌then◌else◌, Option, none, some, List, [], ◌∷◌,
  get_elem?, set, replicate, Outcome, ok, ◌>>=◌,
}
use gyoto.Screen.Coord1d.{size_t_mod}
use gyoto.Screen.Coord2d
use gyoto.Screen.Coord2d.{Coord2dSet}
use gyoto.Scenery.Worker.{Target, Setup, Pc, ready, working, stopped, update, read, cell_of}

-- ij, cnt, working, the cells written so far, and the workers with cell[w].
pub record Manager (F V : Type 0) : Type 0 where
  pub ij : Coord2dSet F
  pub cnt : ℕ
  pub workers : List (Pc F)
  pub working_count : ℕ
  pub image : ℕ → Option V

module _ {F V : Type 0} (setup : Setup) where
  -- A target is given to a worker, or it is told that all is done.
  pub give : Manager F V → ℕ → Outcome (Manager F V)
  give m w = elim (Coord2d.valid m.ij) [
    | true ↦ (do
      target ← read setup m.ij
      ok (record m {
        ij = Coord2d.advance m.ij;
        cnt = (m.cnt + 1) % size_t_mod;
        workers = set m.workers w (working target (cell_of setup m.cnt target));
      }))
    | false ↦
        ok (record m { workers = set m.workers w stopped; working_count = m.working_count - 1 })
  ]

-- `stored` is what the manager stores for a target: `delivered` of Mpi/Triage, of what the worker has
-- computed.
module _ {F V : Type 0} (setup : Setup) (stored : Target F → V) where
  -- The manager receives what the worker has sent. The next target goes out before the result is stored.
  pub receive : Manager F V → ℕ → Pc F → Outcome (Manager F V)
  unfolding give
  receive m w ready = give setup m w
  receive m w (working target cs) = do
    m' ← give setup m w
    ok (record m' { image = update m'.image cs (stored target) })
  receive m w stopped = ok m

  -- A round of while (working), where worker `w` is next; one that has nothing to send is not.
  pub arrival : Manager F V → ℕ → Outcome (Manager F V)
  unfolding receive
  arrival m w =
      if m.working_count == 0
      then ok m
      else elim (get_elem? m.workers w) [ none ↦ ok m | some p ↦ receive m w p ]

  pub arrivals : Manager F V → List ℕ → Outcome (Manager F V)
  unfolding arrival
  arrivals m [] = ok m
  arrivals m (w ∷ ws) = arrival m w >>= λ m'. arrivals m' ws

-- With mpi_team_->size()-1 workers.
pub start_manager : {F V : Type 0} → Coord2dSet F → ℕ → Manager F V
start_manager ij n = record {
  ij = ij;
  cnt = 0;
  workers = replicate n ready;
  working_count = n;
  image = λ c. none;
}
