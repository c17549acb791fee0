-- ===== src/Worldline/Expand.antt =====
-- What xExpand keeps.
use gyoto.Prelude.{
  ℕ, zero, suc, ◌+◌, ◌-◌, ◌≡◌, ◌≤◌, ◌<◌, refl, subst, ◌∙◌, ℕ_discrete, true, Option, none, some,
  arith,
}
use gyoto.Worldline.{
  Worldline, Slot, Direction, forward, backward, allocated, copy, expand_array, offset, expand,
}

module _ {F : Type 0} where
  -- The arrays hold a sample at each index from `imin` to `imax`, and `i0` is one of these.
  pub record IsFilled (w : Worldline F) : Type 0 where
    pub low : w.imin ≤ w.i0
    pub high : w.i0 ≤ w.imax
    pub within : w.imax < w.x_size
    pub written :
        (s : Slot) (k : ℕ)
        → w.imin ≤ k
        → k ≤ w.imax
        → allocated w s ≡ true
        → (v : F) × (w.cells s k ≡ some v)

  -- `w'` has every sample of `w`, moved by `shift`, and maybe more at the ends.
  pub record Extends (w w' : Worldline F) : Type 0 where
    pub shift : ℕ
    pub same_i0 : w'.i0 ≡ w.i0 + shift
    pub below : w'.imin ≤ w.imin + shift
    pub above : w.imax + shift ≤ w'.imax
    pub same_transport : w'.parallel_transport ≡ w.parallel_transport
    pub kept : (s : Slot) (k : ℕ) → w.imin ≤ k → k ≤ w.imax → w'.cells s (k + shift) ≡ w.cells s k

  pub Extends-refl : (w : Worldline F) → Extends w w
  Extends-refl w = record {
    shift = 0;
    same_i0 = omega arith;
    below = omega arith;
    above = omega arith;
    same_transport = refl;
    kept = λ s k lo hi. let e : k + 0 ≡ k = omega arith in rw e refl;
  }

  pub Extends-trans : {u v w : Worldline F} → Extends u v → Extends v w → Extends u w
  Extends-trans {u} {v} {w} a b = record {
    shift = a.shift + b.shift;
    same_i0 = omega arith;
    below = omega arith;
    above = omega arith;
    same_transport = b.same_transport ∙ a.same_transport;
    kept = λ s k lo hi.
        let e : k + (a.shift + b.shift) ≡ (k + a.shift) + b.shift = omega arith in
        rw e (b.kept s (k + a.shift) (omega arith) (omega arith) ∙ a.kept s k lo hi);
  }

  copy-below :
      (rounds i off : ℕ) (old x : ℕ → Option F) (k : ℕ)
      → k < i + off
      → copy rounds i off old x k ≡ x k
  copy-below zero i off old x k h = refl
  copy-below (suc rounds) i off old x k h =
      copy-below rounds (i + 1) off old _ k (omega arith) ∙ ground arith

  copy_lem :
      (rounds i off : ℕ) (old x : ℕ → Option F) (k : ℕ)
      → i ≤ k
      → k < i + rounds
      → copy rounds i off old x (k + off) ≡ old k
  copy_lem zero i off old x k lo hi = absurd (omega arith)
  copy_lem (suc rounds) i off old x k lo hi = elim (ℕ_discrete i k) [
    | yes e ↦ copy-below rounds (i + 1) off old _ (k + off) (omega arith) ∙ ground arith
    | no ne ↦ copy_lem rounds (i + 1) off old _ k (omega arith) (omega arith)
  ]

  expand_array-kept :
      (w : Worldline F) (dir : Direction) (old : ℕ → Option F) (k : ℕ)
      → w.imin ≤ k
      → k ≤ w.imax
      → expand_array w dir old (k + offset w dir) ≡ old k
  unfolding expand_array
  expand_array-kept w forward old k lo hi =
      copy_lem (w.imax + 1 - w.imin) w.imin 0 old (λ j. none) k lo (omega arith)
  expand_array-kept w backward old k lo hi =
      copy_lem (w.imax + 1 - w.imin) w.imin w.x_size old (λ j. none) k lo (omega arith)

  pub expand-Extends : (w : Worldline F) (dir : Direction) → Extends w (expand w dir).0
  unfolding expand
  expand-Extends w dir = record {
    shift = offset w dir;
    same_i0 = refl;
    below = omega arith;
    above = omega arith;
    same_transport = refl;
    kept = λ s k lo hi. expand_array-kept w dir (w.cells s) k lo hi;
  }

  offset-le : (w : Worldline F) (dir : Direction) → offset w dir ≤ w.x_size
  offset-le w forward = omega arith
  offset-le w backward = omega arith

  pub expand-IsFilled : (w : Worldline F) (dir : Direction) → IsFilled w → IsFilled (expand w dir).0
  unfolding expand
  expand-IsFilled w dir f = record {
    low = omega (arith, f.low);
    high = omega (arith, f.high);
    within = omega (arith, f.within, offset-le w dir);
    written = λ s k lo hi a.
        let j = k - offset w dir in
        let (v, e) = f.written s j (omega arith) (omega arith) a in
        let back : j + offset w dir ≡ k = omega arith in
        let moved = expand_array-kept w dir (w.cells s) j (omega arith) (omega arith) ∙ e in
        (v, subst (λ i. expand_array w dir (w.cells s) i ≡ some v) back moved);
  }

  -- xExpand keeps every sample in use, shifted by the same amount as imin_, i0_ and imax_ are. Called
  -- where the end of the arrays has been reached, it returns the index at which the last sample on that
  -- side now stands, and there is room beyond it.
  pub expand_lem :
      (w : Worldline F) (dir : Direction)
      → IsFilled w
      → let (w', ind) = expand w dir in
        IsFilled w'
        × ((s : Slot) (k : ℕ)
            → w.imin ≤ k
            → k ≤ w.imax
            → w'.cells s (k + offset w dir) ≡ w.cells s k)
        × (w'.imin ≡ w.imin + offset w dir)
        × (w'.i0 ≡ w.i0 + offset w dir)
        × (w'.imax ≡ w.imax + offset w dir)
        × (dir ≡ forward → w.imax ≡ w.x_size - 1 → (ind ≡ w'.imax) × (ind + 1 < w'.x_size))
        × (dir ≡ backward → w.imin ≡ 0 → (ind ≡ w'.imin) × (0 < ind))
  unfolding expand
  expand_lem w forward f = (
    expand-IsFilled w forward f,
    λ s k lo hi. expand_array-kept w forward (w.cells s) k lo hi,
    refl,
    refl,
    refl,
    λ d e. (omega (arith, f.within), omega (arith, f.within)),
    λ d. cc,
  )
  expand_lem w backward f = (
    expand-IsFilled w backward f,
    λ s k lo hi. expand_array-kept w backward (w.cells s) k lo hi,
    refl,
    refl,
    refl,
    λ d. cc,
    λ d e. (omega arith, omega (arith, f.within)),
  )
