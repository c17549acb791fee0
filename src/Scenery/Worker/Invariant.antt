-- ===== src/Scenery/Worker/Invariant.antt =====
-- What holds between any two steps of the workers, in any interleaving.
use gyoto.Prelude.{
  ℕ, ◌+◌, ◌<◌, ◌≡◌, ◌≢◌, sym, ap, ◌∙◌, ◌⊎◌, inl, inr, true, false, ◌==◌, ==_iff, Bool-cases, Option,
  some, List, [], ◌∷◌, get_elem?, set, length, get_elem?-set_self, get_elem?-set_ne, get_elem?-lt,
  get_elem?-unique, get_elem?-set_cases, arith, ok, ℕ_discrete,
}
use gyoto.Screen.Coord2d.{Coord2dSet, valid, advance}
use gyoto.Scenery.Worker.{Target, Setup, Pc, ready, working, stopped, update, read, cell_of}

-- What the workers rely on in the set that they share: `rest` lists the targets that are left, and
-- the sets that `Fits` describes give them out one by one.
pub record IsWalk {F : Type 0} (setup : Setup) (rest : Coord2dSet F → List (Target F))
    (Fits : Coord2dSet F → Type 0) : Type 0 where
  pub more :
      (s : Coord2dSet F)
      → Fits s
      → valid s ≡ true
      → (x : Target F) × (read setup s ≡ ok x) × (rest s ≡ x ∷ rest (advance s)) × Fits (advance s)
  pub over : (s : Coord2dSet F) → Fits s → valid s ≡ false → rest s ≡ []

module _ {F V : Type 0} (setup : Setup) (trace : Target F → V) (targets : List (Target F)) where
  -- Target `m` of the list is being traced by some worker.
  abbrev pub InHand : List (Pc F) → ℕ → Target F → Type 0
  InHand ws m x = (t : ℕ) × (get_elem? ws t ≡ some (working x (cell_of setup m x)))

  -- The part of the invariant that concerns what has been given out so far.
  pub record Inv (cnt : ℕ) (ws : List (Pc F)) (image : ℕ → Option V) : Type 0 where
    -- Every target given out is in its cell or in the hands of a worker.
    pub covered :
        (m : ℕ) (x : Target F)
        → m < cnt
        → get_elem? targets m ≡ some x
        → (image (cell_of setup m x) ≡ some (trace x)) ⊎ InHand ws m x
    -- What a worker has in hand is one of the targets, with its own cell.
    pub honest :
        (t : ℕ) (x : Target F) (c : ℕ)
        → get_elem? ws t ≡ some (working x c)
        → (m : ℕ) × (m < cnt) × (get_elem? targets m ≡ some x) × (c ≡ cell_of setup m x)
    -- A cell holds nothing but the result of a target that belongs there.
    pub clean :
        (c : ℕ) (v : V)
        → image c ≡ some v
        → (m : ℕ) × (x : Target F) × (get_elem? targets m ≡ some x)
          × (c ≡ cell_of setup m x)
          × (v ≡ trace x)
    -- A worker stops only when nothing is left.
    pub ended : (t : ℕ) → get_elem? ws t ≡ some stopped → cnt ≡ length targets

  -- Two targets that share a cell have the same result.
  abbrev pub NoConflict : Type 0
  NoConflict =
      (m n : ℕ) (x y : Target F)
      → get_elem? targets m ≡ some x
      → get_elem? targets n ≡ some y
      → cell_of setup m x ≡ cell_of setup n y
      → trace x ≡ trace y

  module _ (apart : NoConflict) {cnt : ℕ} {ws : List (Pc F)} {image : ℕ → Option V}
      (inv : Inv cnt ws image) where
    open inv use {covered, honest, clean, ended}

    -- A worker that has nothing in hand may be changed without losing a target.
    keep-InHand :
        (t m : ℕ) (x : Target F) (p q : Pc F)
        → get_elem? ws t ≡ some p
        → p ≢ working x (cell_of setup m x)
        → InHand ws m x
        → InHand (set ws t q) m x
    keep-InHand t m x p q r free (u, h) = elim (ℕ_discrete t u) [
      | yes e ↦ absurd (free (get_elem?-unique ws t u r h e))
      | no ne ↦ (u, get_elem?-set_ne ws q ne ∙ h)
    ]

    -- Giving the next target out keeps the invariant.
    pub give-Inv :
        (t : ℕ) (x : Target F)
        → get_elem? ws t ≡ some ready
        → get_elem? targets cnt ≡ some x
        → Inv (cnt + 1) (set ws t (working x (cell_of setup cnt x))) image
    give-Inv t x r e = record {
      covered = λ m y lt g. elim (ℕ_discrete m cnt) [
        | yes same ↦
            let y_eq : x ≡ y = get_elem?-unique targets cnt m e g (sym same) in
            inr (t, rw (same, ← y_eq) (get_elem?-set_self ws t _ (get_elem?-lt ws t r)))
        | no ne ↦ elim (covered m y (omega arith) g) [
          | inl done ↦ inl done
          | inr held ↦ inr (keep-InHand t m y ready _ r (λ p. cc) held)
        ]
      ];
      honest = λ u y c h. elim (get_elem?-set_cases ws t u h) [
        | inl (_, p) ↦ (cnt, omega arith, ground (arith, p, e), ground (arith, p))
        | inr (_, g) ↦ let (m, lt, g', c_eq) = honest u y c g in (m, omega arith, g', c_eq)
      ];
      clean = clean;
      ended = λ u h. elim (get_elem?-set_cases ws t u h) [
        | inl (_, p) ↦ cc
        | inr (_, g) ↦ absurd (omega (arith, ended u g, get_elem?-lt targets cnt e))
      ];
    }

    -- So does writing a result to its cell.
    pub deliver-Inv :
        (t : ℕ) (x : Target F) (c : ℕ)
        → get_elem? ws t ≡ some (working x c)
        → Inv cnt (set ws t ready) (update image c (trace x))
    deliver-Inv t x c r = record {
      covered = λ m y lt g. elim (Bool-cases (c == cell_of setup m y)) [
        | inl hit ↦
            let (n, _, gx, cx) = honest t x c r in
            let same : c ≡ cell_of setup m y = (==_iff _ _).0 hit in
            inl (rw hit (ap some (apart n m x y gx g (sym cx ∙ same))))
        | inr miss ↦ elim (covered m y lt g) [
          | inl done ↦ inl (rw miss done)
          | inr held ↦
              inr (keep-InHand t m y (working x c) ready r (λ p. ground (arith, p, miss)) held)
        ]
      ];
      honest = λ u y k h. elim (get_elem?-set_cases ws t u h) [
        | inl (_, p) ↦ cc
        | inr (_, g) ↦ honest u y k g
      ];
      clean = λ k v h. elim (Bool-cases (c == k)) [
        | inl hit ↦
            let (n, _, gx, cx) = honest t x c r in
            let same : c ≡ k = (==_iff _ _).0 hit in
            (n, x, gx, sym same ∙ cx, ground (arith, hit, h))
        | inr miss ↦ clean k v (ground (arith, miss, h))
      ];
      ended =
          λ u h. elim (get_elem?-set_cases ws t u h) [ inl (_, p) ↦ cc | inr (_, g) ↦ ended u g ];
    }

    -- So does stopping when everything has been given out.
    pub stop-Inv :
        (t : ℕ)
        → get_elem? ws t ≡ some ready
        → cnt ≡ length targets
        → Inv cnt (set ws t stopped) image
    stop-Inv t r e = record {
      covered = λ m y lt g. elim (covered m y lt g) [
        | inl done ↦ inl done
        | inr held ↦ inr (keep-InHand t m y ready _ r (λ p. cc) held)
      ];
      honest = λ u y k h. elim (get_elem?-set_cases ws t u h) [
        | inl (_, p) ↦ cc
        | inr (_, g) ↦ honest u y k g
      ];
      clean = clean;
      ended = λ u h. e;
    }
