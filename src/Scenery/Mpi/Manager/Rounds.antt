-- ===== src/Scenery/Mpi/Manager/Rounds.antt =====
-- What holds of the manager between two messages, in any order of their arrival.
use gyoto.Prelude.{
  ℕ, suc, ◌+◌, ◌-◌, ◌%◌, ◌<◌, ◌≤◌, ◌≡◌, refl, sym, subst, ◌∙◌, inl, inr, Bool-cases, false, ◌==◌,
  Option, some, List, [], ◌∷◌, get_elem?, set, drop, length, arith, ok, Outcome, drop-eq_nil,
  drop-eq_cons, get_elem?-replicate, get_elem?-lt, get_elem?-set_self, length-set, length-replicate,
  Option-cases,
}
use gyoto.Screen.Coord1d.{size_t_mod}
use gyoto.Screen.Coord2d
use gyoto.Screen.Coord2d.{Coord2dSet, valid}
use gyoto.Scenery.Worker.{Target, Setup, Pc, ready, working, stopped, update, cell_of}
use gyoto.Scenery.Worker.Invariant.{IsWalk, Inv, NoConflict, give-Inv, deliver-Inv, stop-Inv}
use gyoto.Scenery.Mpi.Manager.{Manager, give, receive, arrival, arrivals, start_manager}
use gyoto.Scenery.Mpi.Manager.Busy.{is_busy, busy, set-get_elem?, set-set, busy-set, busy-replicate}

module _ {F V : Type 0} (setup : Setup) (trace : Target F → V)
    {rest : Coord2dSet F → List (Target F)} {Fits : Coord2dSet F → Type 0}
    (walk : IsWalk setup rest Fits) (targets : List (Target F))
    (small : length targets < size_t_mod) (apart : NoConflict setup trace targets) where
  open walk use {more, over}

  pub record ManagerInv (m : Manager F V) : Type 0 where
    pub fits : Fits m.ij
    pub left : rest m.ij ≡ drop m.cnt targets
    pub within : m.cnt ≤ length targets
    pub inv : Inv setup trace targets m.cnt m.workers m.image
    pub counted : m.working_count ≡ busy m.workers
    pub staffed : 0 < length m.workers

  -- The targets that are left, and the workers that have not stopped.
  abbrev pub measure : Manager F V → ℕ
  measure m = length targets - m.cnt + m.working_count

  -- Worker `w` is given something while the image is `image`.
  give-ManagerInv :
      (m : Manager F V) (w : ℕ) {p : Pc F} (image : ℕ → Option V)
      → get_elem? m.workers w ≡ some p
      → is_busy p ≡ 1
      → Inv setup trace targets m.cnt (set m.workers w ready) image
      → ManagerInv m
      → (m' : Manager F V) × (give setup m w ≡ ok m')
        × (m'.image ≡ m.image)
        × ManagerInv (record m' { image = image })
        × (suc (measure m') ≡ measure m)
  unfolding give
  give-ManagerInv m w {p} image at b inv i =
      let free : get_elem? (set m.workers w ready) w ≡ some ready =
        get_elem?-set_self m.workers w ready (get_elem?-lt m.workers w at) in
      elim (Bool-cases (valid m.ij)) [
        | inl v ↦
            let (x, rd, rs, fits') = more m.ij i.fits v in
            let (g, d, lt) = drop-eq_cons m.cnt targets (sym i.left ∙ rs) in
            let next : (m.cnt + 1) % size_t_mod ≡ m.cnt + 1 = omega arith in
            (
              record m {
                ij = Coord2d.advance m.ij;
                cnt = m.cnt + 1;
                workers = set m.workers w (working x (cell_of setup m.cnt x));
              },
              rw (give, v, rd, next) refl,
              refl,
              record {
                fits = fits';
                left = sym d;
                within = omega arith;
                inv =
                    subst (λ ws. Inv setup trace targets (m.cnt + 1) ws image)
                      (set-set m.workers w ready (working x (cell_of setup m.cnt x)))
                      (give-Inv setup trace targets apart inv w x free g);
                counted =
                    omega (
                      arith,
                      i.counted,
                      busy-set m.workers w (working x (cell_of setup m.cnt x)) at,
                    );
                staffed = rw length-set i.staffed;
              },
              omega arith,
            )
        | inr v ↦
            let gone = sym i.left ∙ over m.ij i.fits v in
            let all : m.cnt ≡ length targets =
              omega (arith, i.within, drop-eq_nil m.cnt targets gone) in
            let less = busy-set m.workers w stopped at in
            (
              record m { workers = set m.workers w stopped; working_count = m.working_count - 1 },
              rw (give, v) refl,
              refl,
              record {
                fits = i.fits;
                left = i.left;
                within = i.within;
                inv =
                    subst (λ ws. Inv setup trace targets m.cnt ws image)
                      (set-set m.workers w ready stopped)
                      (stop-Inv setup trace targets apart inv w free all);
                counted = omega (arith, i.counted, less);
                staffed = rw length-set i.staffed;
              },
              omega (arith, i.counted, less),
            )
      ]

  -- What a round leaves, where worker `w` had something to send.
  abbrev pub Nearer : Manager F V → Outcome (Manager F V) → Type 0
  Nearer m r = (m' : Manager F V) × (r ≡ ok m') × ManagerInv m' × (suc (measure m') ≡ measure m)

  receive-ManagerInv :
      (m : Manager F V) (w : ℕ) (p : Pc F)
      → get_elem? m.workers w ≡ some p
      → is_busy p ≡ 1
      → ManagerInv m
      → Nearer m (receive setup trace m w p)
  unfolding receive
  receive-ManagerInv m w ready at b i =
      let same : Inv setup trace targets m.cnt (set m.workers w ready) m.image =
        subst (λ ws. Inv setup trace targets m.cnt ws m.image) (sym (set-get_elem? m.workers w at))
          i.inv in
      let (m', e, kept, i', near) = give-ManagerInv m w m.image at b same i in
      (m', e, subst (λ f. ManagerInv (record m' { image = f })) (sym kept) i', near)
  receive-ManagerInv m w (working x c) at b i =
      let stored = deliver-Inv setup trace targets apart i.inv w x c at in
      let (m', e, kept, i', near) =
        give-ManagerInv m w (update m.image c (trace x)) at b stored i in
      (record m' { image = update m.image c (trace x) }, rw (receive, e, kept) refl, i', near)
  receive-ManagerInv m w stopped at b i = absurd (omega arith)

  pub arrival_near :
      (m : Manager F V) (w : ℕ) (p : Pc F)
      → get_elem? m.workers w ≡ some p
      → is_busy p ≡ 1
      → m.working_count == 0 ≡ false
      → ManagerInv m
      → Nearer m (arrival setup trace m w)
  unfolding arrival
  arrival_near m w p at b goes i =
      let (m', e, i', near) = receive-ManagerInv m w p at b i in
      (m', rw (arrival, goes, at) e, i', near)

  Kept : Manager F V → ℕ → Type 0
  Kept m w = (m' : Manager F V) × (arrival setup trace m w ≡ ok m') × ManagerInv m'

  arrival-ManagerInv : (m : Manager F V) (w : ℕ) → ManagerInv m → Kept m w
  unfolding arrival Kept receive
  arrival-ManagerInv m w i = elim (Bool-cases (m.working_count == 0)) [
    | inl over ↦ (m, rw (arrival, over) refl, i)
    | inr goes ↦ elim (Option-cases (get_elem? m.workers w)) [
      | inl nobody ↦ (m, rw (arrival, goes, nobody) refl, i)
      | inr (ready, at) ↦
          let (m', e, i', near) = arrival_near m w ready at refl goes i in (m', e, i')
      | inr (working x c, at) ↦
          let (m', e, i', near) = arrival_near m w (working x c) at refl goes i in (m', e, i')
      | inr (stopped, at) ↦ (m, rw (arrival, goes, at, receive) refl, i)
    ]
  ]

  abbrev pub Reached : Manager F V → List ℕ → Type 0
  Reached m ws = (m' : Manager F V) × (arrivals setup trace m ws ≡ ok m') × ManagerInv m'

  pub arrivals-ManagerInv : (m : Manager F V) (ws : List ℕ) → ManagerInv m → Reached m ws
  unfolding arrivals Kept
  arrivals-ManagerInv m [] i = (m, refl, i)
  arrivals-ManagerInv m (w ∷ ws) i =
      let (m', e, i') = arrival-ManagerInv m w i in
      let (m'', e', i'') = arrivals-ManagerInv m' ws i' in (m'', rw e e', i'')

  pub start-ManagerInv :
      (ij : Coord2dSet F) (n : ℕ)
      → 0 < n
      → Fits ij
      → rest ij ≡ targets
      → ManagerInv (start_manager ij n)
  unfolding start_manager
  start-ManagerInv ij n some_worker fits e = record {
    fits = fits;
    left = e;
    within = omega arith;
    inv = record {
      covered = λ m x lt g. absurd (omega arith);
      honest = λ t x c g. cc (get_elem?-replicate _ _ t g);
      clean = λ c v g. cc;
      ended = λ t g. cc (get_elem?-replicate _ _ t g);
    };
    counted = sym (busy-replicate F n);
    staffed = rw length-replicate some_worker;
  }
