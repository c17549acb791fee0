-- ===== src/PatternDisk/Emission/Safe.antt =====
-- Inside the radial limits, emission and getVelocity read no cell outside the arrays.
use gyoto.Prelude.{
  ℕ, zero, suc, ◌+◌, ◌*◌, ◌^◌, ◌≡◌, ◌≤◌, ◌<◌, sym, subst, Bool, true, false, leb, if◌then◌else◌,
  Option, none, some, List, length, Outcome, ok, or_undefined, Error, Ensures, Ensures->>=, arith,
}
use gyoto.PatternDisk.{PatternDisk, Double}
use gyoto.PatternDisk.Sound.{IsSound, HasSize, IsGrid}
use gyoto.PatternDisk.Cells.{Place, get_indices}
use gyoto.PatternDisk.Cells.Within.{true_ne_false, Rounds, IsInside, IsCell, get_indices_in}
use gyoto.PatternDisk.Emission.{interpolate, outside, emission_inside, emission, grid_velocity}
use gyoto.PatternDisk.Emission.Reads.{IsDefined, require-IsDefined, interpolate_in}

if-IsDefined :
    {A : Type 0} (b : Bool) (x y : Outcome A)
    → b ≡ false
    → IsDefined y
    → IsDefined (if b then x else y)
if-IsDefined true x y e h = absurd (true_ne_false e)
if-IsDefined false x y e h = h

either-IsDefined :
    {A : Type 0} (b : Bool) (x y : Outcome A)
    → IsDefined x
    → IsDefined y
    → IsDefined (if b then x else y)
either-IsDefined true x y h k = h
either-IsDefined false x y h k = k

case-IsDefined :
    {A : Type 0} (b : Bool) (x y : Outcome A)
    → IsDefined x
    → IsDefined y
    → IsDefined (elim b [ true ↦ x | false ↦ y ])
case-IsDefined true x y h k = h
case-IsDefined false x y h k = k

module _ {F : Type 0} where
  grid_of :
      (e : Option (List F)) (values : List F) {a b c : ℕ}
      → e ≡ some values
      → IsGrid e a b c
      → (0 < a) × (0 < b) × (1 < c)
  grid_of none values e g = cc
  grid_of (some v) values e g = g

  array_in :
      (e : Option (List F)) (values : List F) (n : ℕ)
      → e ≡ some values
      → HasSize n e
      → Ensures (λ v. length v ≡ n) (or_undefined e)
  array_in none values n e h = cc
  array_in (some v) values n e h = h

plane_le : (a b c n : ℕ) → 0 < a → n ≡ a * b * c → 0 + b * c ≤ n
plane_le zero b c n h e = absurd (omega (arith, h))
plane_le (suc a) b c n h e = grind arith

module _ {F : Type 0} (double : Double F) (d : PatternDisk F) (rounds_d : Rounds double d) where
  -- The sizes fit in a size_t.
  abbrev pub Fits : Type 0
  Fits = (d.nphi < 2 ^ 64) × (d.nr < 2 ^ 64) × (d.nnu * d.nphi * d.nr < 2 ^ 64)

  emission_inside_in :
      (i : ℕ × ℕ × ℕ) (place : Place F) (dsem : F) (values : List F)
      → IsSound d
      → Fits
      → d.emission ≡ some values
      → d.repeat_phi ≡ 1
      → d.flag_radtransf ≡ false
      → IsCell double d i
      → IsDefined (emission_inside double d i place dsem)
  unfolding emission_inside
  emission_inside_in (i_nu, i_phi, i_r) place dsem values h fits lit once opaque
        (phi_in, pos, less) =
      let (some_nu, some_phi, wide) = grid_of d.emission values lit h.grid in
      require-IsDefined (leb d.nnu 1) Error.multifrequency _ (
        Ensures->>= (λ v. length v ≡ d.nnu * d.nphi * d.nr) (λ em. Unit {0})
          (or_undefined d.emission) _
          (array_in d.emission values (d.nnu * d.nphi * d.nr) lit h.emission_size)
          (λ v n.
            Ensures->>= (λ em. Unit {0}) (λ em. Unit {0}) (interpolate double d v 0 i_phi i_r place)
              _
              (interpolate_in double d wide fits.1 v 0 i_phi i_r place h.radius_size phi_in pos less
                some_phi fits.0 once (plane_le d.nnu d.nphi d.nr (length v) some_nu n)
                (subst (λ k. k < 2 ^ 64) (sym n) fits.2))
              (λ em t. if-IsDefined d.flag_radtransf _ (ok em) opaque tt)))

  -- For a PatternDisk with an emission whose arrays have their sizes, with dimensions and products that
  -- fit in 64 bits, repeat_phi 1 and quotients that name cells inside the limits, and a place between
  -- the radial limits and, where radii are given, strictly between the first and the last of them,
  -- emission without radiative transfer throws or returns: it reads no cell outside the arrays, however
  -- often the azimuth has been unwound.
  pub emission-IsDefined :
      (rounds : ℕ) (place : Place F) (nu dsem : F) (values : List F)
      → IsSound d
      → Fits
      → d.emission ≡ some values
      → d.repeat_phi ≡ 1
      → d.flag_radtransf ≡ false
      → IsInside double d d.radius place.r
      → IsDefined (emission double rounds d place nu dsem)
  unfolding emission
  emission-IsDefined rounds place nu dsem values h fits lit once opaque inside =
      let (some_nu, some_phi, wide) = grid_of d.emission values lit h.grid in
      Ensures->>= (IsCell double d) (λ em. Unit {0}) (get_indices double rounds d place nu) _
        (get_indices_in double d rounds_d rounds place nu wide fits.1 inside)
        (λ i cell.
          either-IsDefined (outside double place.r (d.rin, d.rout)) _ _ tt
            (emission_inside_in i place dsem values h fits lit once opaque cell))

  velocity_cells : (b c n : ℕ) → n ≡ 2 * b * c → (0 + b * c ≤ n) × (c * b + b * c ≤ n)
  velocity_cells b c n e = grind arith

  -- With the same conditions, but with or without radiative transfer, and with velocities of the
  -- announced size, the interpolation of getVelocity throws or returns, and so reads no cell outside the
  -- arrays.
  pub grid_velocity-IsDefined :
      (rounds : ℕ) (place : Place F) (values emitted : List F)
      → IsSound d
      → (d.nphi < 2 ^ 64) × (d.nr < 2 ^ 64) × (2 * d.nphi * d.nr < 2 ^ 64)
      → d.emission ≡ some emitted
      → length values ≡ 2 * d.nphi * d.nr
      → d.repeat_phi ≡ 1
      → IsInside double d d.radius place.r
      → IsDefined (grid_velocity double rounds d values place)
  unfolding grid_velocity
  grid_velocity-IsDefined rounds place values emitted h fits lit n once inside =
      let (some_nu, some_phi, wide) = grid_of d.emission emitted lit h.grid in
      let (plane, planes) = velocity_cells d.nphi d.nr (length values) n in
      let few : length values < 2 ^ 64 = subst (λ k. k < 2 ^ 64) (sym n) fits.2 in
      Ensures->>= (IsCell double d) (λ vel. Unit {0})
        (get_indices double rounds d place double.nought) _
        (get_indices_in double d rounds_d rounds place double.nought wide fits.1 inside)
        (λ (i_nu, i_phi, i_r) (phi_in, pos, less).
          case-IsDefined (outside double place.r (d.rin, d.rout)) _ _ tt (
            Ensures->>= (λ v. Unit {0}) (λ vel. Unit {0})
              (interpolate double d values (d.nr * d.nphi) i_phi i_r place) _
              (interpolate_in double d wide fits.1 values (d.nr * d.nphi) i_phi i_r place
                h.radius_size phi_in pos less some_phi fits.0 once planes few)
              (λ phiprime t.
                Ensures->>= (λ v. Unit {0}) (λ vel. Unit {0})
                  (interpolate double d values 0 i_phi i_r place) _
                  (interpolate_in double d wide fits.1 values 0 i_phi i_r place h.radius_size phi_in
                    pos less some_phi fits.0 once plane few)
                  (λ rprime t'. tt))))
