-- ===== src/Scenery/Worker/LateRead.antt =====
-- The read before the test of valid(): over a list of pixels no worker can leave its loop without
-- having read past the end of the list.
use gyoto.Prelude.{
  ℕ, ◌+◌, ◌%◌, ◌<◌, ◌≤◌, ◌≡◌, ◌≢◌, refl, subst, inl, inr, Bool, true, ltb, Bool-cases, Option, none,
  some, List, [], ◌∷◌, get_elem?, get_elem?-set_cases, get_elem?-replicate, length, arith, tests,
  get_elem?-none, ok, undefined, >>=-eq-ok, ok-injective,
}
use gyoto.Screen.Coord1d
use gyoto.Screen.Coord1d.{size_t_mod, indices}
use gyoto.Screen.Coord2d
use gyoto.Screen.Coord2d.{Coord2dSet, bucket}
use gyoto.Scenery.Worker.{
  Target, Pc, ready, working, stopped, System, read, fetch, deliver, act, turn, run, start,
}
use gyoto.Scenery.Worker.Pixels.{pixel_setup}

module _ {F V : Type 0} (npix : ℕ) (alloc : Bool) (trace : Target F → V) (xs ys : List ℕ)
    (same : length xs ≡ length ys) (small : length xs < size_t_mod) where
  -- The bucket of the two lists, at position `i`.
  abbrev pub at_position : ℕ → Coord2dSet F
  at_position i = bucket (indices (some xs) (length xs) i) (indices (some ys) (length ys) i)

  record Running (s : System F V) : Type 0 where
    position : ℕ
    stands : s.ij ≡ at_position position
    inside : position ≤ length xs
    none_stopped : (t : ℕ) → get_elem? s.workers t ≢ some stopped

  read_end :
      (s : System F V) (i : ℕ)
      → s.ij ≡ at_position i
      → get_elem? xs i ≡ none
      → read (pixel_setup npix alloc) s.ij ≡ undefined
  unfolding read Coord2d.deref Coord1d.deref
  read_end s i e out = rw (e, out) refl

  fetch-Running :
      (s s' : System F V) (t : ℕ)
      → Running s
      → fetch (pixel_setup npix alloc) trace s t ≡ ok s'
      → Running s'
  unfolding fetch Coord2d.valid Coord1d.valid Coord2d.advance Coord1d.advance
  fetch-Running s s' t r e = elim (Bool-cases (ltb r.position (length xs))) [
    | inl more ↦
        let (x, rd, e') = >>=-eq-ok (read (pixel_setup npix alloc) s.ij) _ e in
        let v : Coord2d.valid s.ij ≡ true = rw r.stands (ground (arith, more)) in
        let next : (r.position + 1) % size_t_mod ≡ r.position + 1 = omega tests in
        subst Running (ok-injective (rw v at e')) (record {
          position = r.position + 1;
          stands = rw r.stands (rw next refl);
          inside = omega tests;
          none_stopped = λ u h. elim (get_elem?-set_cases s.workers t u h) [
            | inl (_, p) ↦ cc
            | inr (_, g) ↦ r.none_stopped u g
          ];
        })
    | inr over ↦
        let out : get_elem? xs r.position ≡ none = get_elem?-none xs r.position (ground arith) in
        cc (rw (read_end s r.position r.stands out) at e)
  ]

  turn-Running :
      (s s' : System F V) (t : ℕ)
      → Running s
      → turn (pixel_setup npix alloc) trace s t ≡ ok s'
      → Running s'
  unfolding turn act deliver
  turn-Running s s' t r e = go (get_elem? s.workers t) e
    where
      go :
          (p : Option (Pc F))
          → (elim p [ none ↦ ok s | some q ↦ act (pixel_setup npix alloc) trace s t q ]) ≡ ok s'
          → Running s'
      go none h = subst Running (ok-injective h) r
      go (some ready) h = fetch-Running s s' t r h
      go (some (working x c)) h = subst Running (ok-injective h) (record {
        position = r.position;
        stands = r.stands;
        inside = r.inside;
        none_stopped = λ u k. elim (get_elem?-set_cases s.workers t u k) [
          | inl (_, p) ↦ cc
          | inr (_, g) ↦ r.none_stopped u g
        ];
      })
      go (some stopped) h = subst Running (ok-injective h) r

  run-Running :
      (s s' : System F V) (ts : List ℕ)
      → Running s
      → run (pixel_setup npix alloc) trace s ts ≡ ok s'
      → Running s'
  unfolding run
  run-Running s s' [] r e = subst Running (ok-injective e) r
  run-Running s s' (t ∷ ts) r e =
      let (m, first, others) = >>=-eq-ok (turn (pixel_setup npix alloc) trace s t) _ e in
      run-Running m s' ts (turn-Running s m t r first) others

  -- Over a Bucket of two Indices of the same length, no schedule brings a worker to the end of its
  -- loop by defined steps alone: as long as no undefined read has happened, no worker has stopped.
  pub no_defined_end :
      (nthreads : ℕ) (thread_safe : Bool) (ts : List ℕ) (s : System F V)
      → run (pixel_setup npix alloc) trace (start (at_position 0) nthreads thread_safe) ts ≡ ok s
      → (t : ℕ) → get_elem? s.workers t ≢ some stopped
  unfolding start
  no_defined_end nthreads thread_safe ts s e =
      (run-Running (start (at_position 0) nthreads thread_safe) s ts at_start e).none_stopped
    where
      at_start : Running (start (at_position 0) nthreads thread_safe)
      at_start = record {
        position = 0;
        stands = refl;
        inside = omega arith;
        none_stopped = λ t g. cc (get_elem?-replicate _ _ t g);
      }
