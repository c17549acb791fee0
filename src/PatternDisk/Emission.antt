-- ===== src/PatternDisk/Emission.antt =====
-- PatternDisk::emission, transmission and the interpolation of getVelocity, in lib/PatternDisk.C.
pub mod Reads
pub mod Safe
pub mod Past
use gyoto.Prelude.{
  ℕ, ◌+◌, ◌-◌, ◌*◌, ◌%◌, ◌^◌, Bool, true, false, ◌&&◌, ◌||◌, not, leb, ltb, ◌==◌, if◌then◌else◌,
  Option, none, some, List, get_elem?, Outcome, ok, throws, Error, or_undefined, require, ◌>>=◌,
  ◌>>◌,
}
use gyoto.PatternDisk.{PatternDisk, Double}
use gyoto.PatternDisk.Cells.{Place, below, wrap, get_indices}

-- iphil, iphiu, philow, phihigh and phi
pub record Azimuths (F : Type 0) : Type 0 where
  pub lower : ℕ
  pub upper : ℕ
  pub philow : F
  pub phihigh : F
  pub phi : F

module _ {F : Type 0} (double : Double F) where
  open double use {nought, one, two_pi, add, sub, mul, div, exp_minus, lt, eq, of_size_t}

  -- values[k] for an index on size_t
  abbrev pub value_at : List F → ℕ → Outcome F
  value_at values k = or_undefined (get_elem? values (k % 2 ^ 64))

  -- The azimuths between which it is interpolated, past the last one to the first.
  pub azimuths : PatternDisk F → ℕ → F → Azimuths F
  azimuths d i_phi phi =
      if (i_phi == 0 || i_phi == d.nphi) && d.repeat_phi == 1
      then record {
        lower = d.nphi - 1;
        upper = 0;
        philow = add d.phimin (mul (of_size_t (d.nphi - 1)) d.dphi);
        phihigh = add d.phimin two_pi;
        phi = if lt phi d.phimin then add phi two_pi else phi;
      }
      else record {
        lower = below i_phi;
        upper = i_phi;
        philow = add d.phimin (mul (sub (of_size_t i_phi) one) d.dphi);
        phihigh = add d.phimin (mul (of_size_t i_phi) d.dphi);
        phi = phi;
      }

  -- radlow and radhigh
  pub radii_around : PatternDisk F → Option (List F) → ℕ → Outcome (F × F)
  radii_around d none i_r =
      ok (add d.rin (mul (of_size_t (below i_r)) d.dr), add d.rin (mul (of_size_t i_r) d.dr))
  radii_around d (some radii) i_r = do
    low ← value_at radii (below i_r)
    high ← value_at radii i_r
    ok (low, high)

  abbrev pub outside : F → F × F → Bool
  outside x (low, high) = lt x low || lt high x

  abbrev pub fraction : F → F × F → F
  fraction x (low, high) = div (sub x low) (sub high low)

  -- Interpolation in radius, from values[first] on.
  pub linear : PatternDisk F → List F → ℕ → ℕ → F → Outcome F
  unfolding radii_around
  linear d values first i_r rr = do
    low ← value_at values (first + below i_r)
    high ← value_at values (first + i_r)
    around ← radii_around d d.radius i_r
    require (not (outside rr around)) Error.bad_interpolation
    ok (add low (mul (fraction rr around) (sub high low)))

  abbrev pub mix : F → F → F → F → F → F → F
  mix cp cr x00 x10 x01 x11 =
      add (add (add x00 (mul cp (sub x10 x00))) (mul cr (sub x01 x00)))
        (mul (mul cr cp) (sub (add (sub x11 x01) x00) x10))

  -- Interpolation in azimuth and radius.
  pub bilinear : PatternDisk F → List F → ℕ → Azimuths F → ℕ → F → Outcome F
  unfolding radii_around
  bilinear d values first az i_r rr = do
    around ← radii_around d d.radius i_r
    x00 ← value_at values (first + (az.lower * d.nr + below i_r))
    x10 ← value_at values (first + (az.upper * d.nr + below i_r))
    x11 ← value_at values (first + (az.upper * d.nr + i_r))
    x01 ← value_at values (first + (az.lower * d.nr + i_r))
    require (not (outside az.phi (az.philow, az.phihigh) || outside rr around))
        Error.bad_interpolation
    ok (mix (fraction az.phi (az.philow, az.phihigh)) (fraction rr around) x00 x10 x01 x11)

  pub interpolate : PatternDisk F → List F → ℕ → ℕ → ℕ → Place F → Outcome F
  unfolding linear bilinear azimuths
  interpolate d values first i_phi i_r place =
      if d.nphi == 1
      then linear d values first i_r place.r
      else bilinear d values first (azimuths d i_phi (wrap double d place.phi)) i_r place.r

  -- What is left of the emission in a layer of thickness `dsem`, with the opacity of the cell.
  pub through_layer : PatternDisk F → Option (List F) → ℕ × ℕ × ℕ → F → F → Outcome F
  through_layer d none i dsem em = ok nought
  through_layer d (some opac) (i_nu, i_phi, i_r) dsem em = do
    v ← value_at opac (i_phi * d.nr + i_r)
    ok (if eq (mul v dsem) nought then nought else mul em (sub one (exp_minus (mul v dsem))))

  -- The emission inside the radial limits.
  pub emission_inside : PatternDisk F → ℕ × ℕ × ℕ → Place F → F → Outcome F
  unfolding interpolate through_layer
  emission_inside d (i_nu, i_phi, i_r) place dsem = do
    require (leb d.nnu 1) Error.multifrequency
    values ← or_undefined d.emission
    em ← interpolate d values 0 i_phi i_r place
    if d.flag_radtransf then through_layer d d.opacity (i_nu, i_phi, i_r) dsem em else ok em

  -- emission(nu, dsem, co)
  pub emission : ℕ → PatternDisk F → Place F → F → F → Outcome F
  unfolding emission_inside
  emission rounds d place nu dsem = do
    i ← get_indices double rounds d place nu
    if outside place.r (d.rin, d.rout) then ok nought else emission_inside d i place dsem

  -- exp(-opac*dsem), with the opacity of the cell
  pub dimmed : ℕ → PatternDisk F → Option (List F) → Place F → F → F → Outcome F
  dimmed rounds d none place nu dsem = ok one
  dimmed rounds d (some opac) place nu dsem = do
    (i_nu, i_phi, i_r) ← get_indices double rounds d place nu
    v ← value_at opac (i_phi * d.nr + i_r)
    ok (if eq v nought then one else exp_minus (mul v dsem))

  -- transmission(nu, dsem, co)
  pub transmission : ℕ → PatternDisk F → Place F → F → F → Outcome F
  unfolding dimmed
  transmission rounds d place nu dsem =
      if not d.flag_radtransf then ok nought else dimmed rounds d d.opacity place nu dsem

  -- The velocities in radius and azimuth that getVelocity interpolates, none outside the radial limits.
  pub grid_velocity : ℕ → PatternDisk F → List F → Place F → Outcome (Option (F × F))
  unfolding interpolate
  grid_velocity rounds d values place = do
    (i_nu, i_phi, i_r) ← get_indices double rounds d place nought
    elim (outside place.r (d.rin, d.rout)) [
      | true ↦ ok none
      | false ↦ (do
        phiprime ← interpolate d values (d.nr * d.nphi) i_phi i_r place
        rprime ← interpolate d values 0 i_phi i_r place
        ok (some (rprime, phiprime)))
    ]
