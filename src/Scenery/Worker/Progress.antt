-- ===== src/Scenery/Worker/Progress.antt =====
-- The loop of SceneryThreadWorker ends: each step of a worker that has not stopped brings it nearer.
use gyoto.Prelude.{
  ℕ, zero, suc, ◌+◌, ◌*◌, ◌<◌, ◌≡◌, ◌≢◌, refl, ap, subst, ◌⊎◌, inl, inr, Bool, Bool-cases,
  Option-cases, some, List, [], ◌∷◌, get_elem?, set, length, arith, ok, >>=-eq-ok, ok-injective,
}
use gyoto.Screen.Coord1d.{size_t_mod}
use gyoto.Screen.Coord2d.{Coord2dSet, valid}
use gyoto.Scenery.Worker.{
  Target, Setup, Pc, ready, working, stopped, System, read, cell_of, proceed, fetch, deliver, act,
  turn, run, start,
}
use gyoto.Scenery.Worker.Invariant.{IsWalk, NoConflict}
use gyoto.Scenery.Worker.Steps.{SystemInv, turn-SystemInv, run-SystemInv, start-SystemInv}
use gyoto.Scenery.Worker.Complete.{AllStopped}

-- The steps that a worker makes before it is back at its critical section, that one included.
abbrev weight : {F : Type 0} → Pc F → ℕ
weight ready = 1
weight (working x c) = 2
weight stopped = 0

abbrev total : {F : Type 0} → List (Pc F) → ℕ
total [] = 0
total (w ∷ ws) = weight w + total ws

total-set :
    {F : Type 0} (ws : List (Pc F)) (t : ℕ) {p : Pc F} (q : Pc F)
    → get_elem? ws t ≡ some p
    → total (set ws t q) + weight p ≡ total ws + weight q
total-set [] t q e = cc
total-set (w ∷ ws) zero {p = p} q e = let same : weight w ≡ weight p = cc in omega arith
total-set (w ∷ ws) (suc t) q e = omega (arith, total-set ws t q e)

module _ {F V : Type 0} (setup : Setup) (trace : Target F → V)
    {rest : Coord2dSet F → List (Target F)} {Fits : Coord2dSet F → Type 0}
    (walk : IsWalk setup rest Fits) where
  -- Two steps for each target that is left, and those of the workers.
  abbrev pub measure : System F V → ℕ
  measure s = 2 * length (rest s.ij) + total s.workers

  fetch-lt :
      (s s' : System F V) (t : ℕ)
      → get_elem? s.workers t ≡ some ready
      → Fits s.ij
      → fetch setup trace s t ≡ ok s'
      → measure s' < measure s
  unfolding fetch
  fetch-lt s s' t r fits e = elim (Bool-cases (valid s.ij)) [
    | inl v ↦
        let (x, rd, rs, fits') = walk.more s.ij fits v in
        subst (λ u. measure u < measure s) (ok-injective (rw (rd, v) at e))
          (omega (arith, ap length rs, total-set s.workers t (working x (cell_of setup s.cnt x)) r))
    | inr v ↦
        let (x, rd, e') = >>=-eq-ok (read setup s.ij) _ e in
        subst (λ u. measure u < measure s) (ok-injective (rw v at e'))
          (omega (arith, total-set s.workers t stopped r))
  ]

  act-lt :
      (s s' : System F V) (t : ℕ) (p : Pc F)
      → get_elem? s.workers t ≡ some p
      → p ≢ stopped
      → Fits s.ij
      → act setup trace s t p ≡ ok s'
      → measure s' < measure s
  unfolding act
  act-lt s s' t ready r on fits e = fetch-lt s s' t r fits e
  act-lt s s' t (working x c) r on fits e =
      subst (λ u. measure u < measure s) (ok-injective e)
        (omega (arith, total-set s.workers t ready r))
  act-lt s s' t stopped r on fits e = absurd (on refl)

  -- Every step of a worker that has not stopped lowers the measure.
  pub turn-lt :
      (s s' : System F V) (t : ℕ) (p : Pc F)
      → get_elem? s.workers t ≡ some p
      → p ≢ stopped
      → Fits s.ij
      → turn setup trace s t ≡ ok s'
      → measure s' < measure s
  unfolding turn
  turn-lt s s' t p r on fits e = act-lt s s' t p r on fits (rw (r, turn) at e)

  module _ (safe : (ij : Coord2dSet F) → Fits ij → (x : Target F) × (read setup ij ≡ ok x)) where
    -- Where the shared set can be read even past its end, no step goes wrong.
    act_ok :
        (s : System F V) (t : ℕ) (p : Pc F)
        → Fits s.ij
        → (s' : System F V) × (act setup trace s t p ≡ ok s')
    unfolding act fetch
    act_ok s t ready fits = let (x, rd) = safe s.ij fits in (proceed setup trace s t x, rw rd refl)
    act_ok s t (working x c) fits = (deliver setup trace s t x c, refl)
    act_ok s t stopped fits = (s, refl)

    find_active :
        (ws : List (Pc F))
        → ((t : ℕ) → t < length ws → get_elem? ws t ≡ some stopped)
          ⊎ ((t : ℕ) × (p : Pc F) × (get_elem? ws t ≡ some p) × (p ≢ stopped))
    find_active [] = inl (λ t lt. absurd (omega arith))
    find_active (ready ∷ ws) = inr (0, ready, refl, λ e. cc)
    find_active (working x c ∷ ws) = inr (0, working x c, refl, λ e. cc)
    find_active (stopped ∷ ws) = elim (find_active ws) [
      | inl all ↦ inl (elim [ zero ↦ λ lt. refl | suc t ↦ λ lt. all t (omega arith) ])
      | inr (t, p, g, on) ↦ inr (suc t, p, g, on)
    ]

    turn_ok :
        (s : System F V) (t : ℕ) → Fits s.ij → (s' : System F V) × (turn setup trace s t ≡ ok s')
    unfolding turn
    turn_ok s t fits = elim (Option-cases (get_elem? s.workers t)) [
      | inl e ↦ (s, rw (e, turn) refl)
      | inr (p, e) ↦ let (s', a) = act_ok s t p fits in (s', rw (e, turn) a)
    ]

    module _ (targets : List (Target F)) (small : length targets < size_t_mod)
        (apart : NoConflict setup trace targets) where
      run_ok :
          (ts : List ℕ) (s : System F V)
          → SystemInv setup trace walk targets small apart s
          → (s' : System F V) × (run setup trace s ts ≡ ok s')
      unfolding run
      run_ok [] s i = (s, refl)
      run_ok (t ∷ ts) s i =
          let (m, e) = turn_ok s t i.fits in
          let (s', r) =
            run_ok ts m (turn-SystemInv setup trace walk targets small apart s m t i e) in
          (s', rw e r)

      finish :
          (n : ℕ) (s : System F V)
          → measure s < n
          → SystemInv setup trace walk targets small apart s
          → (ts : List ℕ) × (s' : System F V) × (run setup trace s ts ≡ ok s') × AllStopped s'
      unfolding run
      finish zero s lt i = elim lt [ ]
      finish (suc n) s lt i = elim (find_active s.workers) [
        | inl all ↦ ([], s, refl, all)
        | inr (t, p, g, on) ↦
            let (m, e) = turn_ok s t i.fits in
            let (ts, s', r, stop) =
              finish n m (omega (arith, turn-lt s m t p g on i.fits e))
                (turn-SystemInv setup trace walk targets small apart s m t i e) in
            (t ∷ ts, s', rw e r, stop)
      ]

      -- If the shared set can be read at any time, even past its end, and has fewer than 2 ^ 64 targets,
      -- of which two share a cell only with the same result, then no schedule makes the workers throw
      -- or read out of bounds, and any schedule can be continued until all of them have stopped.
      pub workers_finish :
          (ij : Coord2dSet F) (nthreads : ℕ) (thread_safe : Bool) (ts : List ℕ)
          → Fits ij
          → rest ij ≡ targets
          → (s : System F V) × (run setup trace (start ij nthreads thread_safe) ts ≡ ok s)
            × ((us : List ℕ) × (s' : System F V) × (run setup trace s us ≡ ok s') × AllStopped s')
      workers_finish ij nthreads thread_safe ts fits e =
          let first =
            start-SystemInv setup trace walk targets small apart ij nthreads thread_safe fits e in
          let (s, h) = run_ok ts (start ij nthreads thread_safe) first in
          let i = run-SystemInv setup trace walk targets small apart _ s ts first h in
          (s, h, finish (suc (measure s)) s (omega arith) i)
