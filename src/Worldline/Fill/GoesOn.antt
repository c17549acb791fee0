-- ===== src/Worldline/Fill/GoesOn.antt =====
-- How storing a sample and making room for it let a worldline go on.
use gyoto.Prelude.{
  ap, ltb, ok-injective, undefined, ℕ, ◌+◌, ◌-◌, ◌≡◌, ◌<◌, ◌≤◌, ◌≢◌, ℕ_discrete, refl, sym, subst,
  ◌⊎◌, inl, inr, Bool, true, false, Bool-cases, ◌&&◌, ==_iff, ◌==◌, if◌then◌else◌, some, List, [],
  ◌∷◌, ok, arith,
}
use gyoto.Worldline.{
  Worldline, Slot, Sample, Direction, forward, backward, allocated, expand, store, x0, tau,
}
use gyoto.Worldline.Expand.{
  IsFilled, Extends, Extends-refl, Extends-trans, expand-Extends, expand-IsFilled, expand_lem,
}
use gyoto.Worldline.Fill.Grown.{Grown, Grown-trans, expand-Grown}
use gyoto.Worldline.Fill.{readable, make_room, next_index, close}

module _ {F : Type 0} where
  abbrev pub HasRoom : Direction → Worldline F → ℕ → Type 0
  HasRoom forward w ind = ind + 1 < w.x_size
  HasRoom backward w ind = 0 < ind

  -- The worldline `p.0`, ended at index `p.1`, goes on from `v`.
  abbrev pub GoesOn : Direction → Worldline F → Worldline F × ℕ → Type 0
  GoesOn dir v p = IsFilled (close dir p.0 p.1) × Extends v (close dir p.0 p.1) × Grown dir v p.0

  abbrev pub AtEnd : Direction → Worldline F → Type 0
  AtEnd forward v = v.imax ≡ v.x_size - 1
  AtEnd backward v = v.imin ≡ 0

  pub expand-GoesOn :
      (dir : Direction) (v : Worldline F)
      → IsFilled v
      → AtEnd dir v
      → GoesOn dir v (expand v dir) × HasRoom dir (expand v dir).0 (expand v dir).1
  expand-GoesOn forward v f e =
      let w = (expand v forward).0 in
      let (same, room) = (expand_lem v forward f).5 refl e in
      (
        subst (λ k. GoesOn forward v (w, k)) (sym same)
            (expand-IsFilled v forward f, expand-Extends v forward, expand-Grown forward v),
        room,
      )
  expand-GoesOn backward v f e =
      let w = (expand v backward).0 in
      let (same, room) = (expand_lem v backward f).6 refl e in
      (
        subst (λ k. GoesOn backward v (w, k)) (sym same)
            (expand-IsFilled v backward f, expand-Extends v backward, expand-Grown backward v),
        room,
      )

  pub make_room-GoesOn :
      (dir : Direction) (w : Worldline F) (ind : ℕ)
      → IsFilled (close dir w ind)
      → let p = make_room dir w ind in GoesOn dir (close dir w ind) p × HasRoom dir p.0 p.1
  unfolding make_room
  make_room-GoesOn forward w ind f = elim (Bool-cases (ind == w.x_size - 1)) [
    | inl full ↦
        let e : ind ≡ w.x_size - 1 = (==_iff _ _).0 full in
        let last = record w { imax = w.x_size - 1 } in
        let f' = subst (λ k. IsFilled (record w { imax = k })) e f in
        let p = expand last forward in
        rw full (
          subst (λ k. GoesOn forward (record w { imax = k }) p × HasRoom forward p.0 p.1) (sym e)
            (expand-GoesOn forward last f' refl))
    | inr free ↦
        rw free ((f, Extends-refl (record w { imax = ind }), refl), ground (arith, f.within))
  ]
  make_room-GoesOn backward w ind f = elim (Bool-cases (ind == 0)) [
    | inl full ↦
        let e : ind ≡ 0 = (==_iff _ _).0 full in
        let last = record w { imin = 0 } in
        let f' = subst (λ k. IsFilled (record w { imin = k })) e f in
        let p = expand last backward in
        rw full (
          subst (λ k. GoesOn backward (record w { imin = k }) p × HasRoom backward p.0 p.1) (sym e)
            (expand-GoesOn backward last f' refl))
    | inr free ↦ rw free ((f, Extends-refl (record w { imin = ind }), refl), ground arith)
  ]

  abbrev pub put : Worldline F → ℕ → Sample F → Worldline F
  put w i coord = record w {
    cells = λ s k. if (k == i) && allocated w s then some (coord s) else w.cells s k;
  }

  pub put_written :
      (w : Worldline F) (i : ℕ) (coord : Sample F) (s : Slot) (k : ℕ)
      → allocated w s ≡ true
      → ((k ≡ i) ⊎ ((v : F) × (w.cells s k ≡ some v)))
      → (v : F) × ((put w i coord).cells s k ≡ some v)
  put_written w i coord s k a (inl e) = (coord s, ground arith)
  put_written w i coord s k a (inr (v, e)) = elim (ℕ_discrete k i) [
    | yes same ↦ (coord s, ground arith)
    | no ne ↦ (v, ground arith)
  ]

  pub put_kept :
      (w : Worldline F) (i : ℕ) (coord : Sample F) (s : Slot) (k : ℕ)
      → k ≢ i
      → (put w i coord).cells s (k + 0) ≡ w.cells s k
  put_kept w i coord s k ne = let z : k + 0 ≡ k = omega arith in rw z (ground arith)

  pub store-GoesOn :
      (dir : Direction) (w : Worldline F) (ind : ℕ) (coord : Sample F)
      → IsFilled (close dir w ind)
      → HasRoom dir w ind
      → (w' : Worldline F) × (store w (next_index dir ind) coord ≡ ok w')
        × GoesOn dir (close dir w ind) (w', next_index dir ind)
  unfolding store
  store-GoesOn forward w ind coord f room = (
    put w (ind + 1) coord,
    ground arith,
    (
      record {
        low = f.low;
        high = omega arith;
        within = room;
        written = λ s k lo hi a.
            put_written w (ind + 1) coord s k a (elim (ℕ_discrete k (ind + 1)) [
              | yes e ↦ inl e
              | no ne ↦ inr (f.written s k lo (omega arith) a)
            ]);
      },
      record {
        shift = 0;
        same_i0 = omega arith;
        below = omega arith;
        above = omega arith;
        same_transport = refl;
        kept = λ s k lo hi. put_kept w (ind + 1) coord s k (omega arith);
      },
      refl,
    ),
  )
  store-GoesOn backward w ind coord f room = (
    put w (ind - 1) coord,
    ground (arith, f.within, f.low, f.high),
    (
      record {
        low = omega arith;
        high = f.high;
        within = f.within;
        written = λ s k lo hi a.
            put_written w (ind - 1) coord s k a (elim (ℕ_discrete k (ind - 1)) [
              | yes e ↦ inl e
              | no ne ↦ inr (f.written s k (omega arith) hi a)
            ]);
      },
      record {
        shift = 0;
        same_i0 = omega arith;
        below = omega arith;
        above = omega arith;
        same_transport = refl;
        kept = λ s k lo hi. put_kept w (ind - 1) coord s k (omega arith);
      },
      refl,
    ),
  )

  pub store-imin :
      (w w' : Worldline F) (i : ℕ) (coord : Sample F) → store w i coord ≡ ok w' → w'.imin ≡ w.imin
  unfolding store
  store-imin w w' i coord e = elim (Bool-cases (ltb i w.x_size)) [
    | inl inside ↦
        let e' : ok (put w i coord) ≡ ok w' = rw (store, inside) at e in
        ap (λ v. v.imin) (sym (ok-injective e'))
    | inr outside ↦ let e' : undefined ≡ ok w' = rw (store, outside) at e in cc
  ]

  pub allocated_x0 : (w : Worldline F) → allocated w x0 ≡ true
  allocated_x0 w = ground arith

  pub allocated_time :
      (w : Worldline F) (proper : Bool) → allocated w (if proper then tau else x0) ≡ true
  allocated_time w true = ground arith
  allocated_time w false = ground arith

  -- The index at which an integration stands is one of the indices in use.
  pub read_end :
      (dir : Direction) (w : Worldline F) (ind : ℕ) (s : Slot)
      → IsFilled (close dir w ind)
      → allocated w s ≡ true
      → (v : F) × (w.cells s ind ≡ some v)
  read_end forward w ind s f a = f.written s ind (omega (arith, f.low, f.high)) (omega arith) a
  read_end backward w ind s f a = f.written s ind (omega arith) (omega (arith, f.low, f.high)) a

  readable_all :
      (w : Worldline F) (k : ℕ) (ss : List Slot)
      → ((s : Slot) → allocated w s ≡ true → (v : F) × (w.cells s k ≡ some v))
      → readable w k ss ≡ true
  unfolding readable
  readable_all w k [] filled = refl
  readable_all w k (s ∷ ss) filled = elim (Bool-cases (allocated w s)) [
    | inl a ↦ let (v, e) = filled s a in rw (a, e) (readable_all w k ss filled)
    | inr a ↦ rw a (readable_all w k ss filled)
  ]

  pub readable_in :
      (w : Worldline F) (k : ℕ) (ss : List Slot)
      → IsFilled w
      → w.imin ≤ k
      → k ≤ w.imax
      → readable w k ss ≡ true
  readable_in w k ss f lo hi = readable_all w k ss (λ s a. f.written s k lo hi a)

  pub readable_end :
      (dir : Direction) (w : Worldline F) (ind : ℕ) (ss : List Slot)
      → IsFilled (close dir w ind)
      → readable w ind ss ≡ true
  readable_end dir w ind ss f = readable_all w ind ss (λ s a. read_end dir w ind s f a)

  pub GoesOn-trans :
      (dir : Direction) (v w : Worldline F) (ind : ℕ) (p : Worldline F × ℕ)
      → Extends v (close dir w ind)
      → Grown dir v w
      → GoesOn dir (close dir w ind) p
      → GoesOn dir v p
  GoesOn-trans dir v w ind p a g (f, b, h) = (f, Extends-trans a b, Grown-trans dir v w p.0 ind g h)
