-- ===== src/Scenery/Mpi/Manager/Threads.antt =====
-- The processes and the threads of Scenery::rayTrace, in lib/Scenery.C, leave the same values.
use gyoto.Prelude.{
  Option, true, ℕ, ◌<◌, ◌≤◌, ◌≡◌, sym, ap, ◌∙◌, inl, inr, Bool, none, some, List, length, arith, ok,
  Option-cases,
}
use gyoto.Screen.Coord1d.{size_t_mod}
use gyoto.Screen.Coord2d.{Coord2dSet}
use gyoto.Scenery.Worker.{System, run, start, Target, Setup}
use gyoto.Scenery.Worker.Invariant.{IsWalk, NoConflict}
use gyoto.Scenery.Worker.Complete.{AllStopped, render_complete}
use gyoto.Scenery.Mpi.Manager.{Manager, arrivals, start_manager}
use gyoto.Scenery.Quantities.{Quantity, Word, spectral_quantities_count}
use gyoto.Scenery.Mpi.Triage.{Result, is_copied, delivered, delivered_lem}
use gyoto.Scenery.Mpi.Manager.Complete.{manager_complete}

-- The values of a quantity in a cell.
abbrev pub value_in : {D : Type 0} → Quantity → Option (Result D) → Option (List D)
value_in q none = none
value_in q (some v) = some (v q)

module _ {F D : Type 0} (setup : Setup) (trace : Target F → Result D)
    {rest : Coord2dSet F → List (Target F)} {Fits : Coord2dSet F → Type 0}
    (walk : IsWalk setup rest Fits) (targets : List (Target F))
    (small : length targets < size_t_mod) (apart : NoConflict setup trace targets) where
  -- With at least one worker process, over a set that gives its targets out one by one, fewer than 2 ^ 64
  -- of them, of which two share a cell only if they have the same result, and with at most one spectrum
  -- requested: whatever the order of the messages, whatever the schedule of the threads and whatever would
  -- stand in a message with several spectra, a finished run of the processes and a finished run of the
  -- threads leave the same values in each cell, for all quantities but the Stokes parameters.
  pub arrivals-run :
      (mixed : Result D → Result D) (w : Word) (ij : Coord2dSet F) (n nthreads : ℕ)
      (thread_safe : Bool) (ws ts : List ℕ) (m : Manager F (Result D)) (s : System F (Result D))
      → spectral_quantities_count w ≤ 1
      → 0 < n
      → Fits ij
      → rest ij ≡ targets
      → arrivals setup (λ x. delivered mixed w (trace x)) (start_manager ij n) ws ≡ ok m
      → m.working_count ≡ 0
      → run setup trace (start ij nthreads thread_safe) ts ≡ ok s
      → AllStopped s
      → (c : ℕ) (q : Quantity) → is_copied q ≡ true
      → value_in q (m.image c) ≡ value_in q (s.image c)
  arrivals-run mixed w ij n nthreads thread_safe ws ts m s one_spectrum some_worker fits e h done h'
        stop c q copied =
      let stored : Target F → Result D = λ x. delivered mixed w (trace x) in
      let apart' : NoConflict setup stored targets =
        λ k j x y g g' same. ap (delivered mixed w) (apart k j x y g g' same) in
      let (here, only) =
        manager_complete setup stored walk targets small apart' ij n ws m some_worker fits e h
          done in
      let (here', only') =
        render_complete setup trace walk targets small apart ij nthreads thread_safe ts s fits e h'
          stop in
      elim (Option-cases (m.image c)) [
        | inr (v, at) ↦
            let (k, x, g, c_is, v_is) = only c v at in
            let stored_there : s.image c ≡ some (trace x) = ground (arith, here' k x g, c_is) in
            let value : v q ≡ trace x q =
              ap (λ (r : Result D). r q) v_is
              ∙ delivered_lem mixed w (trace x) q one_spectrum copied in
            ap (value_in q) at ∙ ap some value ∙ sym (ap (value_in q) stored_there)
        | inl empty ↦ elim (Option-cases (s.image c)) [
          | inl empty' ↦ ap (value_in q) (empty ∙ sym empty')
          | inr (v, at) ↦
              let (k, x, g, c_is, v_is) = only' c v at in
              let stored_there : m.image c ≡ some (stored x) = ground (arith, here k x g, c_is) in
              let never : none ≡ some (stored x) = sym empty ∙ stored_there in cc
        ]
      ]
