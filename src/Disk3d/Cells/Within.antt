-- ===== src/Disk3d/Cells/Within.antt =====
-- Where getIndices returns, it has found a cell of the grid, and getVelocity reads inside its array.
use native.Mathlib.Nat.{mod-lt, zero-lt-suc}
use gyoto.Prelude.{
  ℕ, zero, suc, ◌+◌, ◌*◌, ◌%◌, ◌^◌, ◌≡◌, ◌<◌, refl, sym, subst, inl, inr, Bool-cases, leb, ◌==◌,
  if◌then◌else◌, some, List, length, get_elem?, get_elem?-some, ok, throws, >>=-eq-ok, ok-injective,
  or_undefined, arith,
}
use gyoto.PatternDisk.{Double}
use gyoto.PatternDisk.Cells.{le, below}
use gyoto.Disk3d.{Disk3d}
use gyoto.Disk3d.Cells.{
  Cylindrical, nearest, nu_index, phi_index, remainder, pattern_phi, checked_index, above, z_index,
  r_index, get_indices, grid_velocity,
}

below-lt : (n : ℕ) → 0 < n → n < 2 ^ 64 → below n < n
below-lt n h k = omega arith

checked_index-lt : (n k : ℕ) {i : ℕ} → 0 < n → n < 2 ^ 64 → checked_index n k ≡ ok i → i < n
unfolding checked_index
checked_index-lt n k {i} pos small e = elim (Bool-cases (k == n)) [
  | inl last ↦
      let at : below n ≡ i = ok-injective (rw (checked_index, last) at e) in
      subst (λ j. j < n) at (below-lt n pos small)
  | inr other ↦ elim (Bool-cases (leb k n)) [
    | inl inside ↦
        let at : k ≡ i = ok-injective (rw (checked_index, other, inside) at e) in
        subst (λ j. j < n) at (ground (arith, other, inside))
    | inr past ↦ let never : throws _ ≡ ok i = rw (checked_index, other, past) at e in cc
  ]
]

remainder-lt : (n k : ℕ) {i : ℕ} → remainder n k ≡ ok i → i < n
unfolding remainder
remainder-lt zero k e = cc
remainder-lt (suc n) k {i} e =
    let at : k % suc n ≡ i = ok-injective e in subst (λ j. j < suc n) at (mod-lt k (zero-lt-suc n))

in_rows : (c n m i : ℕ) → c < n → i < m → i + c * m < n * m
in_rows c n m i h k = grind arith

-- The place of component `c` of the cell (i, j, k) in an array of three components.
component-lt :
    (a b d i j k c : ℕ)
    → i < a
    → j < b
    → k < d
    → c < 3
    → k * 3 * a * b + j * 3 * a + i * 3 + c < 3 * a * b * d
component-lt a b d i j k c h h' h'' three =
    let row : (i * 3 + c) + j * (3 * a) < b * (3 * a) =
      in_rows j b (3 * a) (i * 3 + c) h' (omega arith) in
    let plane : ((i * 3 + c) + j * (3 * a)) + k * (b * (3 * a)) < d * (b * (3 * a)) =
      in_rows k d (b * (3 * a)) ((i * 3 + c) + j * (3 * a)) h'' row in
    let place : k * 3 * a * b + j * 3 * a + i * 3 + c
        ≡ ((i * 3 + c) + j * (3 * a)) + k * (b * (3 * a)) =
      grind arith in
    let whole : 3 * a * b * d ≡ d * (b * (3 * a)) = grind arith in omega arith

-- The dimensions are not null, and fit in 64 bits.
abbrev pub Fits : {F : Type 0} → Disk3d F → Type 0
Fits d =
    (0 < d.nnu)
    × (0 < d.nphi)
    × (0 < d.nz)
    × (0 < d.nr)
    × (d.nnu < 2 ^ 64)
    × (d.nphi < 2 ^ 64)
    × (d.nz < 2 ^ 64)
    × (d.nr < 2 ^ 64)

-- A cell of the grid.
abbrev pub IsCell : {F : Type 0} → Disk3d F → ℕ × ℕ × ℕ × ℕ → Type 0
IsCell d (i_nu, i_phi, i_z, i_r) = (i_nu < d.nnu) × (i_phi < d.nphi) × (i_z < d.nz) × (i_r < d.nr)

module _ {F : Type 0} (double : Double F) where
  clamped-lt : (n k : ℕ) {i : ℕ} → 0 < n → n < 2 ^ 64 → (if leb n k then below n else k) ≡ i → i < n
  clamped-lt n k {i} pos small e = elim (Bool-cases (leb n k)) [
    | inl past ↦ let at : below n ≡ i = rw past at e in subst (λ j. j < n) at (below-lt n pos small)
    | inr inside ↦ let at : k ≡ i = rw inside at e in ground (arith, at, inside)
  ]

  nu_index-lt :
      (d : Disk3d F) (nu : F) {i : ℕ}
      → 0 < d.nnu
      → d.nnu < 2 ^ 64
      → nu_index double d nu ≡ ok i
      → i < d.nnu
  unfolding nu_index
  nu_index-lt d nu {i} pos small e = elim (Bool-cases (le double nu d.nu0)) [
    | inl low ↦
        let at : 0 ≡ i = ok-injective (rw (nu_index, low) at e) in subst (λ j. j < d.nnu) at pos
    | inr high ↦
        let e' = rw (nu_index, high) at e in
        let (k, conv, at) = >>=-eq-ok (or_undefined (nearest double nu d.nu0 d.dnu)) _ e' in
        clamped-lt d.nnu k pos small (ok-injective at)
  ]

  phi_index-lt :
      (d : Disk3d F) (phi : F) {i : ℕ}
      → 0 < d.nphi
      → d.nphi < 2 ^ 64
      → phi_index double d phi ≡ ok i
      → i < d.nphi
  unfolding phi_index
  phi_index-lt d phi {i} pos small e = elim (Bool-cases (double.lt phi d.phimin)) [
    | inl low ↦
        let at : 0 ≡ i = ok-injective (rw (phi_index, low) at e) in subst (λ j. j < d.nphi) at pos
    | inr above_first ↦ elim (Bool-cases (double.lt d.phimax phi)) [
      | inl past ↦
          let at : below d.nphi ≡ i = ok-injective (rw (phi_index, above_first, past) at e) in
          subst (λ j. j < d.nphi) at (below-lt d.nphi pos small)
      | inr inside ↦
          let e' = rw (phi_index, above_first, inside) at e in
          let (k, conv, at) = >>=-eq-ok (or_undefined (nearest double phi d.phimin d.dphi)) _ e' in
          remainder-lt d.nphi k at
    ]
  ]

  -- For dimensions that are not null and fit in 64 bits, however often the azimuth is unwound: where getIndices
  -- returns, what it has found is a cell of the grid.
  pub get_indices-IsCell :
      (rounds : ℕ) (d : Disk3d F) (co : Cylindrical F) (nu : F) {i : ℕ × ℕ × ℕ × ℕ}
      → Fits d
      → get_indices double rounds d co nu ≡ ok i
      → IsCell d i
  unfolding get_indices
  get_indices-IsCell rounds d co nu {i}
        (nu_pos, phi_pos, z_pos, r_pos, nu_fits, phi_fits, z_fits, r_fits) e =
      let (i_nu, e_nu, e1) = >>=-eq-ok (nu_index double d nu) _ e in
      elim (Bool-cases (double.eq (double.mul (double.mul d.dphi d.dz) d.dr) double.nought)) [
        | inl null ↦ let never : throws _ ≡ ok i = rw null at e1 in cc
        | inr stepped ↦
            let e2 = rw stepped at e1 in
            let (i_phi, e_phi, e3) =
              >>=-eq-ok (phi_index double d (pattern_phi double rounds d co)) _ e2 in
            let (i_z, e_z, e4) = >>=-eq-ok (z_index double d co.zz) _ e3 in
            let (i_r, e_r, e5) = >>=-eq-ok (r_index double d co.rr) _ e4 in
            let (k_z, conv_z, at_z) =
              >>=-eq-ok (or_undefined (nearest double (above double d co.zz) d.zmin d.dz)) _ e_z in
            let (k_r, conv_r, at_r) =
              >>=-eq-ok (or_undefined (nearest double co.rr d.rin d.dr)) _ e_r in
            subst (IsCell d) (ok-injective e5) (
              nu_index-lt d nu nu_pos nu_fits e_nu,
              phi_index-lt d _ phi_pos phi_fits e_phi,
              checked_index-lt d.nz k_z z_pos z_fits at_z,
              checked_index-lt d.nr k_r r_pos r_fits at_r,
            )
      ]

  -- With dimensions that are not null and fit in 64 bits and velocities of the announced size, however often
  -- the azimuth is unwound: where getIndices returns, it has found a cell of the grid, and getVelocity
  -- reads its three values inside the array.
  pub grid_velocity_lem :
      (rounds : ℕ) (d : Disk3d F) (co : Cylindrical F) (values : List F) (i : ℕ × ℕ × ℕ × ℕ)
      → Fits d
      → length values ≡ 3 * d.nphi * d.nz * d.nr
      → get_indices double rounds d co double.nought ≡ ok i
      → IsCell d i × ((v : F × F × F) × (grid_velocity double rounds d values co ≡ ok v))
  unfolding grid_velocity
  grid_velocity_lem rounds d co values (i_nu, i_phi, i_z, i_r) fits n e =
      let (in_nu, in_phi, in_z, in_r) = get_indices-IsCell rounds d co double.nought fits e in
      let place : (c : ℕ)
          → c < 3
          → (x : F) × (get_elem? values (i_r * 3 * d.nphi * d.nz + i_z * 3 * d.nphi + i_phi * 3 + c)
              ≡ some x) =
        λ c h. get_elem?-some values _ (
          subst (λ m. i_r * 3 * d.nphi * d.nz + i_z * 3 * d.nphi + i_phi * 3 + c < m) (sym n)
            (component-lt d.nphi d.nz d.nr i_phi i_z i_r c in_phi in_z in_r h)) in
      let (phi, at_phi) = place 0 (omega arith) in
      let (z, at_z) = place 1 (omega arith) in
      let (r, at_r) = place 2 (omega arith) in
      ((in_nu, in_phi, in_z, in_r), ((phi, z, r), rw (grid_velocity, e, at_phi, at_z, at_r) refl))
