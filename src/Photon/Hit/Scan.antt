-- ===== src/Photon/Hit/Scan.antt =====
-- The part of a photon that is computed already, towards the past.
use gyoto.Prelude.{
  ℕ, zero, suc, ◌+◌, ◌≡◌, ◌≤◌, ◌<◌, ◌⊎◌, inl, inr, refl, sym, subst, ◌∙◌, Bool, true, false,
  Bool-cases, leb, some, Outcome, ok, arith, tests,
}
use gyoto.Worldline.{Worldline, backward, x0}
use gyoto.Worldline.Expand.{IsFilled}
use gyoto.Photon.Iteration.{Tracing, next, radius_at}
use gyoto.Photon.Iteration.Backward.{HasRadius, radius_in, next_back}
use gyoto.Photon.Hit.{in_time, impact_near, scan_at, scan}

module _ {F I A : Type 0} (tracing : Tracing F I A) where
  open tracing use {tmin}

  -- Where the loop can end: at a hit, before the first sample, or at one past tmin_.
  abbrev pub Scanned : Worldline F → ℕ × Bool × A → Type 0
  Scanned w (ind, hitt, a) =
      (hitt ≡ true)
      ⊎ ((ind + 1 ≡ w.imin)
          ⊎ ((t : F) × (w.imin ≤ ind)
              × (ind ≤ w.imax)
              × (w.cells x0 ind ≡ some t)
              × (in_time tracing backward t ≡ false)))

  scan_inside :
      (fuel : ℕ) (w : Worldline F) (ind : ℕ) (hitt : Bool) (a : A) (t : F)
      → leb w.imin ind ≡ true
      → w.cells x0 ind ≡ some t
      → scan tracing (suc fuel) backward w ind hitt a
        ≡ scan_at tracing (scan tracing fuel backward w) backward w ind hitt a t
  unfolding scan
  scan_inside fuel w ind hitt a t inside e = rw (inside, e) refl

  -- A round that ends the loop, and one that goes on.
  scan_at-halts :
      (rest : ℕ → Bool → A → Outcome (ℕ × Bool × A)) (w : Worldline F) (ind : ℕ) (hitt : Bool)
      (a : A) (t : F)
      → (hitt ≡ true) ⊎ (in_time tracing backward t ≡ false)
      → scan_at tracing rest backward w ind hitt a t ≡ ok (ind, hitt, a)
  unfolding scan_at
  scan_at-halts rest w ind hitt a t (inr late) = rw (scan_at, late) refl
  scan_at-halts rest w ind true a t (inl reached) = elim (Bool-cases (in_time tracing backward t)) [
    | inl early ↦ rw (scan_at, early) refl
    | inr late ↦ rw (scan_at, late) refl
  ]
  scan_at-halts rest w ind false a t (inl reached) = cc

  scan_at-goes :
      (rest : ℕ → Bool → A → Outcome (ℕ × Bool × A)) (w : Worldline F) (ind : ℕ) (a : A) (t rr : F)
      → in_time tracing backward t ≡ true
      → radius_at tracing w ind ≡ ok rr
      → let (h, a') = impact_near tracing w ind rr a in
        scan_at tracing rest backward w ind false a t ≡ rest (next backward ind) h a'
  unfolding scan_at
  scan_at-goes rest w ind a t rr early known_rr = rw (scan_at, early, known_rr) refl

  pub scan_lem :
      (r : F → F → F → F) (fuel : ℕ) (w : Worldline F) (ind : ℕ) (hitt : Bool) (a : A)
      → HasRadius tracing r
      → IsFilled w
      → 0 < w.imin
      → w.imin ≤ ind + 1
      → ind ≤ w.imax
      → ind + 2 ≤ w.imin + fuel
      → (out : ℕ × Bool × A) × (scan tracing fuel backward w ind hitt a ≡ ok out) × Scanned w out
  unfolding scan
  scan_lem r zero w ind hitt a known f room lo hi enough = absurd (omega arith)
  scan_lem r (suc fuel) w ind hitt a known f room lo hi enough =
      elim (Bool-cases (leb w.imin ind)) [
        | inr before ↦ ((ind, hitt, a), rw before refl, inr (inl (ground arith)))
        | inl inside ↦
            let at : w.imin ≤ ind = omega tests in
            let (t, e) = f.written x0 ind at hi (ground arith) in
            elim (Bool-cases (in_time tracing backward t)) [
              | inr late ↦ (
                (ind, hitt, a),
                scan_inside fuel w ind hitt a t inside e
                    ∙ scan_at-halts (scan tracing fuel backward w) w ind hitt a t (inr late),
                inr (inr (t, at, hi, e, late)),
              )
              | inl early ↦ elim (Bool-cases hitt) [
                | inl reached ↦ (
                  (ind, hitt, a),
                  scan_inside fuel w ind hitt a t inside e
                      ∙ scan_at-halts (scan tracing fuel backward w) w ind hitt a t (inl reached),
                  inl reached,
                )
                | inr on ↦
                    let (rr, known_rr) = radius_in tracing r w ind known f at hi in
                    let (h, a') = impact_near tracing w ind rr a in
                    let below = next_back ind (omega arith) in
                    let (out, s, done) =
                      scan_lem r fuel w (next backward ind) h a' known f room (omega arith)
                        (omega arith) (omega arith) in
                    let goes =
                      scan_inside fuel w ind false a t inside e
                      ∙ scan_at-goes (scan tracing fuel backward w) w ind a t rr early known_rr in
                    (
                      out,
                      subst (λ b. scan tracing (suc fuel) backward w ind b a ≡ ok out) (sym on)
                          (goes ∙ s),
                      done,
                    )
              ]
            ]
      ]
