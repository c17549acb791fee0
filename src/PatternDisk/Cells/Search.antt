-- ===== src/PatternDisk/Cells/Search.antt =====
-- The search of getIndices in the array of radii.
use gyoto.Prelude.{
  ℕ, zero, suc, ◌+◌, ◌≡◌, ◌≤◌, ◌<◌, inl, inr, refl, sym, subst, ◌∙◌, Bool-cases, true, false, some,
  List, [], ◌∷◌, get_elem?, ok, arith,
}
use gyoto.PatternDisk.{Double}
use gyoto.PatternDisk.Cells.{first_radius}

some-injective : {F : Type 0} {x y : F} → some x ≡ some y → x ≡ y
some-injective e = cc

true_ne_false : true ≡ false → ⊥
true_ne_false e = cc

module _ {F : Type 0} (double : Double F) where
  open double use {lt}

  -- `j` is the first index with a radius that is not less than `r`.
  pub record IsFirst (r : F) (radii : List F) (j : ℕ) : Type 0 where
    pub reached : (x : F) → get_elem? radii j ≡ some x → lt x r ≡ false
    pub before : (m : ℕ) (x : F) → m < j → get_elem? radii m ≡ some x → lt x r ≡ true

  -- The last radius is not the one that is passed.
  tail_of_past :
      (r x : F) (xs : List F) (k : ℕ) (last : F)
      → get_elem? (x ∷ xs) k ≡ some last
      → lt last r ≡ false
      → lt x r ≡ true
      → (k' : ℕ) × (get_elem? xs k' ≡ some last) × (k' + 1 ≡ k)
  tail_of_past r x xs zero last e far past =
      let same : x ≡ last = some-injective e in
      let past' : lt last r ≡ true = subst (λ z. lt z r ≡ true) same past in
      absurd (true_ne_false (sym past' ∙ far))
  tail_of_past r x xs (suc k) last e far past = (k, e, omega arith)

  before_suc :
      (r x : F) (xs : List F) (j : ℕ)
      → lt x r ≡ true
      → ((m : ℕ) (y : F) → m < j → get_elem? xs m ≡ some y → lt y r ≡ true)
      → (m : ℕ) (y : F) → m < suc j
      → get_elem? (x ∷ xs) m ≡ some y
      → lt y r ≡ true
  before_suc r x xs j past h zero y less f =
      let same : x ≡ y = some-injective f in subst (λ z. lt z r ≡ true) same past
  before_suc r x xs j past h (suc m) y less f = h m y (omega arith) f

  first_radius_from :
      (r : F) (radii : List F) (i k : ℕ) (last : F)
      → get_elem? radii k ≡ some last
      → lt last r ≡ false
      → (n j : ℕ) × (first_radius double r radii i ≡ ok n)
        × (n ≡ i + j)
        × (j ≤ k)
        × IsFirst r radii j
  unfolding first_radius
  first_radius_from r [] i k last e far = cc
  first_radius_from r (x ∷ xs) i k last e far = elim (Bool-cases (lt x r)) [
    | inr here ↦ (
      i,
      0,
      rw (first_radius, here) refl,
      omega arith,
      omega arith,
      record {
        reached =
            λ y f. let same : x ≡ y = some-injective f in subst (λ z. lt z r ≡ false) same here;
        before = λ m y less f. absurd (omega (arith, less));
      },
    )
    | inl past ↦
        let (k', e', down) = tail_of_past r x xs k last e far past in
        let (n, j, found, at, low, first) = first_radius_from r xs (i + 1) k' last e' far in
        (
          n,
          suc j,
          rw (first_radius, past) found,
          omega arith,
          omega arith,
          record { reached = first.reached; before = before_suc r x xs j past first.before },
        )
  ]

  -- For any radii with one that is not less than `r`, the loop of getIndices stops at the first such.
  pub first_radius_lem :
      (r : F) (radii : List F) (k : ℕ) (last : F)
      → get_elem? radii k ≡ some last
      → lt last r ≡ false
      → (j : ℕ) × (first_radius double r radii 0 ≡ ok j) × (j ≤ k) × IsFirst r radii j
  first_radius_lem r radii k last e far =
      let (n, j, found, at, low, first) = first_radius_from r radii 0 k last e far in
      let same : n ≡ j = omega arith in
      (j, subst (λ m. first_radius double r radii 0 ≡ ok m) same found, low, first)
