-- ===== src/Scenery/Worker/Steps.antt =====
-- Each step of a worker keeps the invariant, so every schedule does.
use gyoto.Prelude.{
  ℕ, ◌+◌, ◌%◌, ◌<◌, ◌≤◌, ◌≡◌, refl, sym, subst, ◌∙◌, inl, inr, Bool, Bool-cases, Option, none, some,
  List, [], ◌∷◌, get_elem?, drop, length, arith, ok, >>=-eq-ok, ok-injective, drop-eq_nil,
  drop-eq_cons, get_elem?-replicate, length-set, length-replicate,
}
use gyoto.Screen.Coord1d.{size_t_mod}
use gyoto.Screen.Coord2d.{Coord2dSet, valid}
use gyoto.Scenery.Worker.{
  Target, Setup, Pc, ready, working, stopped, System, read, fetch, act, turn, run, start,
  workers_count,
}
use gyoto.Scenery.Worker.Invariant.{IsWalk, Inv, NoConflict, give-Inv, deliver-Inv, stop-Inv}

workers_count-pos : (nthreads : ℕ) (thread_safe : Bool) → 0 < workers_count nthreads thread_safe
unfolding workers_count
workers_count-pos nthreads thread_safe = ground arith

module _ {F V : Type 0} (setup : Setup) (trace : Target F → V)
    {rest : Coord2dSet F → List (Target F)} {Fits : Coord2dSet F → Type 0}
    (walk : IsWalk setup rest Fits) (targets : List (Target F))
    (small : length targets < size_t_mod) (apart : NoConflict setup trace targets) where
  open walk use {more, over}

  pub record SystemInv (s : System F V) : Type 0 where
    pub fits : Fits s.ij
    pub left : rest s.ij ≡ drop s.cnt targets
    pub within : s.cnt ≤ length targets
    pub inv : Inv setup trace targets s.cnt s.workers s.image
    pub staffed : 0 < length s.workers

  fetch-SystemInv :
      (s s' : System F V) (t : ℕ)
      → get_elem? s.workers t ≡ some ready
      → SystemInv s
      → fetch setup trace s t ≡ ok s'
      → SystemInv s'
  unfolding fetch
  fetch-SystemInv s s' t r i e = elim (Bool-cases (valid s.ij)) [
    | inl v ↦
        let (x, rd, rs, fits') = more s.ij i.fits v in
        let (g, d, lt) = drop-eq_cons s.cnt targets (sym i.left ∙ rs) in
        let next : (s.cnt + 1) % size_t_mod ≡ s.cnt + 1 = omega arith in
        subst SystemInv (ok-injective (rw (rd, v, next) at e)) (record {
          fits = fits';
          left = sym d;
          within = omega arith;
          inv = give-Inv setup trace targets apart i.inv t x r g;
          staffed = rw length-set i.staffed;
        })
    | inr v ↦
        let (x, rd, e') = >>=-eq-ok (read setup s.ij) _ e in
        let gone = sym i.left ∙ over s.ij i.fits v in
        let all : s.cnt ≡ length targets = omega (arith, drop-eq_nil s.cnt targets gone) in
        subst SystemInv (ok-injective (rw v at e')) (record {
          fits = i.fits;
          left = i.left;
          within = i.within;
          inv = stop-Inv setup trace targets apart i.inv t r all;
          staffed = rw length-set i.staffed;
        })
  ]

  pub turn-SystemInv :
      (s s' : System F V) (t : ℕ) → SystemInv s → turn setup trace s t ≡ ok s' → SystemInv s'
  unfolding turn act
  turn-SystemInv s s' t i e = go (get_elem? s.workers t) refl e
    where
      go :
          (p : Option (Pc F))
          → get_elem? s.workers t ≡ p
          → (elim p [ none ↦ ok s | some q ↦ act setup trace s t q ]) ≡ ok s'
          → SystemInv s'
      go none r h = subst SystemInv (ok-injective h) i
      go (some ready) r h = fetch-SystemInv s s' t r i h
      go (some (working x c)) r h = subst SystemInv (ok-injective h) (record {
        fits = i.fits;
        left = i.left;
        within = i.within;
        inv = deliver-Inv setup trace targets apart i.inv t x c r;
        staffed = rw length-set i.staffed;
      })
      go (some stopped) r h = subst SystemInv (ok-injective h) i

  pub run-SystemInv :
      (s s' : System F V) (ts : List ℕ) → SystemInv s → run setup trace s ts ≡ ok s' → SystemInv s'
  unfolding run
  run-SystemInv s s' [] i e = subst SystemInv (ok-injective e) i
  run-SystemInv s s' (t ∷ ts) i e =
      let (m, first, others) = >>=-eq-ok (turn setup trace s t) _ e in
      run-SystemInv m s' ts (turn-SystemInv s m t i first) others

  pub start-SystemInv :
      (ij : Coord2dSet F) (nthreads : ℕ) (thread_safe : Bool)
      → Fits ij
      → rest ij ≡ targets
      → SystemInv (start ij nthreads thread_safe)
  unfolding start
  start-SystemInv ij nthreads thread_safe fits e = record {
    fits = fits;
    left = e;
    within = omega arith;
    inv = record {
      covered = λ m x lt g. absurd (omega arith);
      honest = λ t x c g. cc (get_elem?-replicate _ _ t g);
      clean = λ c v g. cc;
      ended = λ t g. cc (get_elem?-replicate _ _ t g);
    };
    staffed = rw length-replicate (workers_count-pos nthreads thread_safe);
  }

  -- The invariant holds after any schedule from the start.
  pub run-start-SystemInv :
      (ij : Coord2dSet F) (nthreads : ℕ) (thread_safe : Bool) (ts : List ℕ) {s : System F V}
      → Fits ij
      → rest ij ≡ targets
      → run setup trace (start ij nthreads thread_safe) ts ≡ ok s
      → SystemInv s
  run-start-SystemInv ij nthreads thread_safe ts fits e h =
      run-SystemInv _ _ ts (start-SystemInv ij nthreads thread_safe fits e) h
