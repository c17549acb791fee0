-- ===== src/PatternDisk/Cells/Within.antt =====
-- Inside the radial limits, getIndices gives the indices of a cell of the grid.
use gyoto.Prelude.{
  ℕ, zero, suc, ◌-◌, ◌^◌, ◌≡◌, ◌≤◌, ◌<◌, inl, inr, refl, sym, subst, ◌∙◌, Bool-cases, true, false,
  ◌||◌, leb, ltb, ◌==◌, if◌then◌else◌, Option, none, some, List, get_elem?, ok, Ensures,
  Ensures->>=, arith,
}
use gyoto.PatternDisk.{PatternDisk, Double}
use gyoto.PatternDisk.Cells.{
  Place, le, below, nu_index, nearest_nu, phi_index, pattern_phi, azimuth, checked_azimuth,
  radius_index, ring, linear_index, r_index, get_indices,
}
use gyoto.PatternDisk.Cells.Search.{IsFirst, first_radius_lem}

pub below_lem : (n : ℕ) → 0 < n → n < 2 ^ 64 → below n ≡ n - 1
below_lem n h small = omega arith

clamped :
    (n k : ℕ)
    → 1 < n
    → n < 2 ^ 64
    → 0 < k
    → (0 < (if leb n k then below n else k)) × ((if leb n k then below n else k) < n)
clamped n k wide small h = ground (arith, below_lem n (omega arith) small)

pub true_ne_false : true ≡ false → ⊥
true_ne_false e = cc

module _ {F : Type 0} (double : Double F) where
  open double use {lt, eq, nought}

  -- What the conversions of the grid's quotients to size_t come to: inside the limits in azimuth and
  -- radius they are defined, and name a cell.
  pub record Rounds (d : PatternDisk F) : Type 0 where
    pub nu_rounds :
        (nu : F) → le double nu d.nu0 ≡ false → (k : ℕ) × (nearest_nu double d nu ≡ some k)
    pub phi_rounds :
        (phi : F)
        → lt phi d.phimin ≡ false
        → lt d.phimax phi ≡ false
        → (k : ℕ) × (azimuth double d phi ≡ some k) × (k ≤ d.nphi)
    pub r_rounds :
        (r : F)
        → lt r d.rin ≡ false
        → lt d.rout r ≡ false
        → (k : ℕ) × (ring double d r ≡ some k) × (0 < k)

  -- Between the radial limits, and between the first and the last radius where there are radii.
  abbrev pub IsInside : PatternDisk F → Option (List F) → F → Type 0
  IsInside d none r = (lt r d.rin ≡ false) × (lt d.rout r ≡ false)
  IsInside d (some radii) r =
      (a b : F) × (get_elem? radii 0 ≡ some a)
      × (get_elem? radii (d.nr - 1) ≡ some b)
      × (lt a r ≡ true)
      × (le double b r ≡ false)

  -- Indices between which the grid is interpolated.
  abbrev pub IsCell : PatternDisk F → ℕ × ℕ × ℕ → Type 0
  IsCell d (i_nu, i_phi, i_r) = (i_phi ≤ d.nphi) × (0 < i_r) × (i_r < d.nr)

  lt_of_le : (b r : F) → le double b r ≡ false → lt b r ≡ false
  lt_of_le b r h = ground arith

  after_first :
      (r : F) (radii : List F) (a : F) (j : ℕ)
      → get_elem? radii 0 ≡ some a
      → lt a r ≡ true
      → IsFirst double r radii j
      → 0 < j
  after_first r radii a zero e above first = absurd (true_ne_false (sym above ∙ first.reached a e))
  after_first r radii a (suc j) e above first = omega arith

  module _ (d : PatternDisk F) (rounds_d : Rounds d) where
    nu_index_ok : (nu : F) → (k : ℕ) × (nu_index double d nu ≡ ok k)
    unfolding nu_index
    nu_index_ok nu = elim (Bool-cases (le double nu d.nu0)) [
      | inl low ↦ (0, rw low refl)
      | inr high ↦
          let (k, e) = rounds_d.nu_rounds nu high in
          (if leb d.nnu k then below d.nnu else k, rw (high, e) refl)
    ]

    checked_azimuth_in :
        (k : ℕ) → k ≤ d.nphi → Ensures (λ i. i ≤ d.nphi) (checked_azimuth double d k)
    checked_azimuth_in k h = elim (Bool-cases (k == 0 || k == d.nphi)) [
      | inl bad ↦ rw bad tt
      | inr good ↦ rw good h
    ]

    pub phi_index_in : (phi : F) → Ensures (λ i. i ≤ d.nphi) (phi_index double d phi)
    unfolding phi_index
    phi_index_in phi = elim (Bool-cases (ltb 1 d.nphi)) [
      | inr one ↦ rw one (omega arith)
      | inl more ↦ elim (Bool-cases (lt phi d.phimin)) [
        | inl low ↦ rw (more, low) (omega arith)
        | inr up ↦ elim (Bool-cases (lt d.phimax phi)) [
          | inl high ↦ rw (more, up, high) (omega arith)
          | inr inside ↦
              let (k, e, h) = rounds_d.phi_rounds phi up inside in
              rw (more, up, inside, e) (checked_azimuth_in k h)
        ]
      ]
    ]

    linear_index_in :
        (r : F)
        → 1 < d.nr
        → d.nr < 2 ^ 64
        → lt r d.rin ≡ false
        → lt d.rout r ≡ false
        → Ensures (λ i. (0 < i) × (i < d.nr)) (linear_index double d r)
    unfolding linear_index
    linear_index_in r wide small low high = elim (Bool-cases (eq d.dr nought)) [
      | inl null ↦ rw null tt
      | inr step ↦
          let (k, e, h) = rounds_d.r_rounds r low high in rw (step, e) (clamped d.nr k wide small h)
    ]

    radius_index_in :
        (radii : List F) (r : F)
        → 1 < d.nr
        → d.nr < 2 ^ 64
        → IsInside d (some radii) r
        → (i : ℕ) × (radius_index double d radii r ≡ ok i) × (0 < i) × (i < d.nr)
    unfolding radius_index
    radius_index_in radii r wide small (a, b, ea, eb, above, under) =
        let (j, found, low, first) =
          first_radius_lem double r radii (d.nr - 1) b eb (lt_of_le b r under) in
        let eb' : get_elem? radii (below d.nr) ≡ some b =
          subst (λ k. get_elem? radii k ≡ some b) (sym (below_lem d.nr (omega arith) small)) eb in
        (j, rw (eb', under) found, after_first r radii a j ea above first, omega arith)

    r_index_in :
        (radii : Option (List F)) (r : F)
        → 1 < d.nr
        → d.nr < 2 ^ 64
        → IsInside d radii r
        → Ensures (λ i. (0 < i) × (i < d.nr)) (r_index double d radii r)
    r_index_in none r wide small (low, high) = linear_index_in r wide small low high
    r_index_in (some radii) r wide small inside =
        let (i, e, low, high) = radius_index_in radii r wide small inside in rw e (low, high)

    -- For a place inside the radial limits, getIndices throws, or gives a cell of the grid.
    pub get_indices_in :
        (rounds : ℕ) (place : Place F) (nu : F)
        → 1 < d.nr
        → d.nr < 2 ^ 64
        → IsInside d d.radius place.r
        → Ensures (IsCell d) (get_indices double rounds d place nu)
    unfolding get_indices
    get_indices_in rounds place nu wide small inside =
        let (i_nu, e) = nu_index_ok nu in
        rw e (
          Ensures->>= (λ i. i ≤ d.nphi) (IsCell d)
            (phi_index double d (pattern_phi double rounds d place)) _
            (phi_index_in (pattern_phi double rounds d place))
            (λ i_phi p.
              Ensures->>= (λ i. (0 < i) × (i < d.nr)) (IsCell d) (r_index double d d.radius place.r)
                _ (r_index_in d.radius place.r wide small inside) (λ i_r q. (p, q.0, q.1))))

    -- Past the last azimuth, getIndices throws, or its second index is nphi_.
    pub get_indices_past :
        (rounds : ℕ) (place : Place F) (nu : F)
        → 1 < d.nphi
        → 1 < d.nr
        → d.nr < 2 ^ 64
        → IsInside d d.radius place.r
        → lt (pattern_phi double rounds d place) d.phimin ≡ false
        → lt d.phimax (pattern_phi double rounds d place) ≡ true
        → Ensures (λ i. (i.1 ≡ d.nphi) × (i.2 < d.nr)) (get_indices double rounds d place nu)
    unfolding get_indices phi_index
    get_indices_past rounds place nu azimuths wide small inside low high =
        let (i_nu, e) = nu_index_ok nu in
        let more : ltb 1 d.nphi ≡ true = ground arith in
        rw (e, more, low, high)
          (Ensures->>= (λ i. (0 < i) × (i < d.nr)) (λ i. (i.1 ≡ d.nphi) × (i.2 < d.nr))
            (r_index double d d.radius place.r) _ (r_index_in d.radius place.r wide small inside)
            (λ i_r q. (refl, q.1)))
