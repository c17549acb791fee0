-- ===== src/Scenery/Mpi/Manager/Complete.antt =====
-- Every order in which the messages of the workers arrive ends with the same cells.
use gyoto.Prelude.{
  ℕ, zero, suc, ◌-◌, ◌<◌, ◌≤◌, ◌≡◌, refl, sym, ap, subst, ◌∙◌, inl, inr, Bool-cases, ◌==◌, some,
  List, [], ◌∷◌, get_elem?, length, arith, ok, ok-injective, get_elem?-lt, get_elem?-some,
}
use gyoto.Screen.Coord1d.{size_t_mod}
use gyoto.Screen.Coord2d.{Coord2dSet}
use gyoto.Scenery.Worker.{Target, Setup, working, stopped, cell_of}
use gyoto.Scenery.Worker.Invariant.{IsWalk, NoConflict}
use gyoto.Scenery.Mpi.Manager.{Manager, arrivals, start_manager}
use gyoto.Scenery.Mpi.Manager.Busy.{busy, idle_stopped, busy-suc}
use gyoto.Scenery.Mpi.Manager.Rounds.{
  ManagerInv, measure, arrival_near, arrivals-ManagerInv, start-ManagerInv,
}

module _ {F V : Type 0} (setup : Setup) (trace : Target F → V)
    {rest : Coord2dSet F → List (Target F)} {Fits : Coord2dSet F → Type 0}
    (walk : IsWalk setup rest Fits) (targets : List (Target F))
    (small : length targets < size_t_mod) (apart : NoConflict setup trace targets) where
  finish :
      (k : ℕ) (m : Manager F V)
      → measure setup trace walk targets small apart m ≤ k
      → ManagerInv setup trace walk targets small apart m
      → (ws : List ℕ) × (m' : Manager F V) × (arrivals setup trace m ws ≡ ok m')
        × (m'.working_count ≡ 0)
  unfolding arrivals
  finish zero m h i = ([], m, refl, omega arith)
  finish (suc k) m h i = elim (Bool-cases (m.working_count == 0)) [
    | inl none_left ↦ ([], m, refl, ground (arith, none_left))
    | inr goes ↦
        let some_left : busy m.workers ≡ suc (m.working_count - 1) =
          ground (arith, goes, i.counted) in
        let (w, p, at, b) = busy-suc m.workers (m.working_count - 1) some_left in
        let (m', e, i', near) =
          arrival_near setup trace walk targets small apart m w p at b goes i in
        let (ws, m'', e', done) = finish k m' (omega arith) i' in (w ∷ ws, m'', rw e e', done)
  ]

  -- With at least one worker process, over a set that gives its targets out one by one, fewer than 2 ^ 64 of
  -- them, of which two share a cell only if they have the same result: no order of arrivals makes the
  -- manager throw or read outside the set, and any order can be continued until no worker is left.
  pub manager_finishes :
      (ij : Coord2dSet F) (n : ℕ) (ws : List ℕ)
      → 0 < n
      → Fits ij
      → rest ij ≡ targets
      → (m : Manager F V) × (arrivals setup trace (start_manager ij n) ws ≡ ok m)
        × ((us : List ℕ) × (m' : Manager F V) × (arrivals setup trace m us ≡ ok m')
            × (m'.working_count ≡ 0))
  manager_finishes ij n ws some_worker fits e =
      let (m, h, i) =
        arrivals-ManagerInv setup trace walk targets small apart _ ws
          (start-ManagerInv setup trace walk targets small apart ij n some_worker fits e) in
      (m, h, finish (measure setup trace walk targets small apart m) m (omega arith) i)

  -- With at least one worker and a set as above, whatever the order in which the messages have arrived:
  -- when no worker is left, the cell of every target holds its result, and no cell holds anything else.
  pub manager_complete :
      (ij : Coord2dSet F) (n : ℕ) (ws : List ℕ) (m : Manager F V)
      → 0 < n
      → Fits ij
      → rest ij ≡ targets
      → arrivals setup trace (start_manager ij n) ws ≡ ok m
      → m.working_count ≡ 0
      → ((k : ℕ) (x : Target F)
          → get_elem? targets k ≡ some x
          → m.image (cell_of setup k x) ≡ some (trace x))
        × ((c : ℕ) (v : V)
            → m.image c ≡ some v
            → (k : ℕ) × (x : Target F) × (get_elem? targets k ≡ some x)
              × (c ≡ cell_of setup k x)
              × (v ≡ trace x))
  manager_complete ij n ws m some_worker fits e h done =
      let (m', h', i') =
        arrivals-ManagerInv setup trace walk targets small apart _ ws
          (start-ManagerInv setup trace walk targets small apart ij n some_worker fits e) in
      let i : ManagerInv setup trace walk targets small apart m =
        subst (ManagerInv setup trace walk targets small apart) (ok-injective (sym h' ∙ h)) i' in
      let (p, first) = get_elem?-some m.workers 0 i.staffed in
      let idle : busy m.workers ≡ 0 = omega (arith, i.counted, done) in
      let all : m.cnt ≡ length targets =
        i.inv.ended 0 (first ∙ ap some (idle_stopped m.workers 0 idle first)) in
      (
        λ k x g. elim (i.inv.covered k x (omega (arith, get_elem?-lt targets k g)) g) [
          | inl stored ↦ stored
          | inr (t, held) ↦
              let gone : working x (cell_of setup k x) ≡ stopped =
                idle_stopped m.workers t idle held in
              cc
        ],
        i.inv.clean,
      )
