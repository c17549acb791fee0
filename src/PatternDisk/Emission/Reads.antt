-- ===== src/PatternDisk/Emission/Reads.antt =====
-- The interpolation in a PatternDisk reads its arrays where they have values.
use gyoto.Prelude.{
  ℕ, ◌+◌, ◌*◌, ◌%◌, ◌^◌, ◌≡◌, ◌≤◌, ◌<◌, inl, inr, refl, Bool, Bool-cases, true, false, ◌&&◌, ◌||◌,
  not, ◌==◌, Option, none, some, List, length, get_elem?-some, Outcome, ok, require, Error, Ensures,
  ◌>>◌, arith,
}
use gyoto.PatternDisk.{PatternDisk, Double}
use gyoto.PatternDisk.Sound.{HasSize}
use gyoto.PatternDisk.Cells.{Place, below, wrap}
use gyoto.PatternDisk.Cells.Within.{below_lem}
use gyoto.PatternDisk.Emission.{
  Azimuths, value_at, azimuths, radii_around, linear, bilinear, interpolate, outside,
}

-- Nothing is asked of the value.
abbrev pub IsDefined : {A : Type 0} → Outcome A → Type 0
IsDefined out = Ensures (λ a. Unit {0}) out

pub require-IsDefined :
    {A : Type 0} (b : Bool) (e : Error) (rest : Outcome A)
    → IsDefined rest
    → IsDefined (require b e >> rest)
require-IsDefined true e rest h = h
require-IsDefined false e rest h = tt

row_lt : (i n j m : ℕ) → i < n → j < m → i * m + j < n * m
row_lt i n j m h k = grind arith

inner_azimuth :
    (i n r : ℕ) → i ≤ n → r ≡ 1 → (i == 0 || i == n) && r == 1 ≡ false → (0 < i) × (i < n)
inner_azimuth i n r h once e = ground arith

module _ {F : Type 0} (double : Double F) where
  pub value_at_in :
      (values : List F) (k : ℕ)
      → k < length values
      → length values < 2 ^ 64
      → (x : F) × (value_at double values k ≡ ok x)
  value_at_in values k h small =
      let (x, e) = get_elem?-some values k h in
      let same : k % 2 ^ 64 ≡ k = omega arith in (x, rw (same, e) refl)

  module _ (d : PatternDisk F) (wide : 1 < d.nr) (small : d.nr < 2 ^ 64) where
    radii_around_in :
        (radii : Option (List F)) (i_r : ℕ)
        → HasSize d.nr radii
        → 0 < i_r
        → i_r < d.nr
        → (around : F × F) × (radii_around double d radii i_r ≡ ok around)
    unfolding radii_around
    radii_around_in none i_r n pos lt = (_, refl)
    radii_around_in (some radii) i_r n pos lt =
        let (low, e) =
          value_at_in radii (below i_r) (omega (arith, below_lem i_r pos)) (omega arith) in
        let (high, f) = value_at_in radii i_r (omega arith) (omega arith) in
        ((low, high), rw (e, f) refl)

    linear_in :
        (values : List F) (first i_r : ℕ) (rr : F)
        → HasSize d.nr d.radius
        → 0 < i_r
        → i_r < d.nr
        → first + i_r < length values
        → length values < 2 ^ 64
        → IsDefined (linear double d values first i_r rr)
    unfolding linear
    linear_in values first i_r rr n pos lt fits few =
        let (low, e) =
          value_at_in values (first + below i_r) (omega (arith, below_lem i_r pos)) few in
        let (high, f) = value_at_in values (first + i_r) fits few in
        let (around, g) = radii_around_in d.radius i_r n pos lt in
        rw (e, f, g)
          (require-IsDefined (not (outside double rr around)) Error.bad_interpolation _ tt)

    bilinear_in :
        (values : List F) (first : ℕ) (az : Azimuths F) (i_r : ℕ) (rr : F)
        → HasSize d.nr d.radius
        → 0 < i_r
        → i_r < d.nr
        → az.lower < d.nphi
        → az.upper < d.nphi
        → first + d.nphi * d.nr ≤ length values
        → length values < 2 ^ 64
        → IsDefined (bilinear double d values first az i_r rr)
    unfolding bilinear
    bilinear_in values first az i_r rr n pos lt lo up fits few =
        let (around, g) = radii_around_in d.radius i_r n pos lt in
        let read = λ (i j : ℕ) (h : i < d.nphi) (k : j < d.nr).
          value_at_in values (first + (i * d.nr + j)) (omega (arith, row_lt i d.nphi j d.nr h k))
            few in
        let less : below i_r < d.nr = omega (arith, below_lem i_r pos) in
        let (x00, e00) = read az.lower (below i_r) lo less in
        let (x10, e10) = read az.upper (below i_r) up less in
        let (x11, e11) = read az.upper i_r up lt in
        let (x01, e01) = read az.lower i_r lo lt in
        rw (g, e00, e10, e11, e01)
          (require-IsDefined
            (not (outside double az.phi (az.philow, az.phihigh) || outside double rr around))
            Error.bad_interpolation _ tt)

    azimuths_in :
        (i_phi : ℕ) (phi : F)
        → i_phi ≤ d.nphi
        → 0 < d.nphi
        → d.nphi < 2 ^ 64
        → d.repeat_phi ≡ 1
        → ((azimuths double d i_phi phi).lower < d.nphi)
          × ((azimuths double d i_phi phi).upper < d.nphi)
    unfolding azimuths
    azimuths_in i_phi phi h pos few once =
        elim (Bool-cases ((i_phi == 0 || i_phi == d.nphi) && d.repeat_phi == 1)) [
          | inl edge ↦ rw (azimuths, edge) (omega arith, pos)
          | inr inner ↦
              let (some_phi, less) = inner_azimuth i_phi d.nphi d.repeat_phi h once inner in
              rw (azimuths, inner) (omega (arith, below_lem i_phi some_phi), less)
        ]

    pub interpolate_in :
        (values : List F) (first i_phi i_r : ℕ) (place : Place F)
        → HasSize d.nr d.radius
        → i_phi ≤ d.nphi
        → 0 < i_r
        → i_r < d.nr
        → 0 < d.nphi
        → d.nphi < 2 ^ 64
        → d.repeat_phi ≡ 1
        → first + d.nphi * d.nr ≤ length values
        → length values < 2 ^ 64
        → IsDefined (interpolate double d values first i_phi i_r place)
    unfolding interpolate
    interpolate_in values first i_phi i_r place n phi_in pos lt some_phi few once fits all =
        elim (Bool-cases (d.nphi == 1)) [
          | inl axial ↦
              let one : d.nphi ≡ 1 = ground arith in
              let row : first + i_r < length values =
                omega (arith, row_lt 0 d.nphi i_r d.nr some_phi lt) in
              rw (interpolate, axial) (linear_in values first i_r place.r n pos lt row all)
          | inr more ↦
              let az = azimuths double d i_phi (wrap double d place.phi) in
              let (lo, up) = azimuths_in i_phi (wrap double d place.phi) phi_in some_phi few once in
              rw (interpolate, more)
                (bilinear_in values first az i_r place.r n pos lt lo up fits all)
        ]
