-- ===== src/PatternDisk/Cells.antt =====
-- PatternDisk::getIndices, in lib/PatternDisk.C: the cell of the grid for a place and a frequency.
pub mod Search
pub mod Within
use gyoto.Prelude.{
  ℕ, zero, suc, ◌+◌, ◌-◌, ◌%◌, ◌^◌, Bool, true, false, ◌||◌, leb, ltb, ◌==◌, if◌then◌else◌, Option,
  none, some, List, [], ◌∷◌, get_elem?, Outcome, ok, throws, undefined, Error, or_undefined, ◌>>=◌,
}
use gyoto.PatternDisk.{PatternDisk, Double}

-- projectedRadius(co), sphericalPhi(co) and co[0]
pub record Place (F : Type 0) : Type 0 where
  pub r : F
  pub phi : F
  pub t : F

-- i-1 on size_t
abbrev pub below : ℕ → ℕ
below i = (i + 2 ^ 64 - 1) % 2 ^ 64

module _ {F : Type 0} (double : Double F) where
  open double use {
    nought, one, one_half, two_pi, add, sub, mul, div, fmod, floor, lt, eq, of_size_t, to_size_t,
  }

  abbrev pub le : F → F → Bool
  le a b = lt a b || eq a b

  -- size_t(floor((nu-nu0_)/dnu_+0.5))
  abbrev pub nearest_nu : PatternDisk F → F → Option ℕ
  nearest_nu d nu = to_size_t (floor (add (div (sub nu d.nu0) d.dnu) one_half))

  pub nu_index : PatternDisk F → F → Outcome ℕ
  nu_index d nu =
      if le nu d.nu0
      then ok 0
      else (or_undefined (nearest_nu d nu) >>= λ k. ok (if leb d.nnu k then below d.nnu else k))

  -- while (phi<0) phi += 2.*M_PI, with the number of rounds as fuel
  unfoldable pub unwind : ℕ → F → F
  unwind zero phi = phi
  unwind (suc rounds) phi =
      let rest = unwind rounds (add phi two_pi) in if lt phi nought then rest else phi

  -- The disk is periodic with period repeat_phi_.
  abbrev pub wrap : PatternDisk F → F → F
  wrap d phi =
      if ltb 1 d.repeat_phi
      then add (fmod (sub phi d.phimin) (div (sub d.phimax d.phimin) (of_size_t d.repeat_phi)))
          d.phimin
      else phi

  -- phi in the frame of the pattern
  abbrev pub pattern_phi : ℕ → PatternDisk F → Place F → F
  pattern_phi rounds d place =
      wrap d (unwind rounds (sub place.phi (mul d.omega (sub place.t d.t0))))

  -- size_t(floor((phi-phimin_)/dphi_)+1)
  abbrev pub azimuth : PatternDisk F → F → Option ℕ
  azimuth d phi = to_size_t (add (floor (div (sub phi d.phimin) d.dphi)) one)

  abbrev pub checked_azimuth : PatternDisk F → ℕ → Outcome ℕ
  checked_azimuth d k = if k == 0 || k == d.nphi then throws Error.bad_phi_index else ok k

  pub phi_index : PatternDisk F → F → Outcome ℕ
  phi_index d phi =
      if ltb 1 d.nphi
      then (if lt phi d.phimin
          then ok 0
          else (if lt d.phimax phi
              then ok d.nphi
              else (or_undefined (azimuth d phi) >>= checked_azimuth d)))
      else ok 0

  -- for(i[2]=0; r > radius_[i[2]]; ++i[2]){}
  pub first_radius : F → List F → ℕ → Outcome ℕ
  first_radius r [] i = undefined
  first_radius r (x ∷ xs) i = if lt x r then first_radius r xs (i + 1) else ok i

  pub radius_index : PatternDisk F → List F → F → Outcome ℕ
  unfolding first_radius
  radius_index d radii r = or_undefined (get_elem? radii (below d.nr)) >>= λ last.
      (if le last r then ok d.nr else first_radius r radii 0)

  -- size_t(floor((r-rin_)/dr_)+1)
  abbrev pub ring : PatternDisk F → F → Option ℕ
  ring d r = to_size_t (add (floor (div (sub r d.rin) d.dr)) one)

  pub linear_index : PatternDisk F → F → Outcome ℕ
  linear_index d r =
      if eq d.dr nought
      then throws Error.step_null
      else (or_undefined (ring d r) >>= λ k. ok (if leb d.nr k then below d.nr else k))

  abbrev pub r_index : PatternDisk F → Option (List F) → F → Outcome ℕ
  r_index d none r = linear_index d r
  r_index d (some radii) r = radius_index d radii r

  -- getIndices(i, co, nu)
  pub get_indices : ℕ → PatternDisk F → Place F → F → Outcome (ℕ × ℕ × ℕ)
  unfolding nu_index phi_index
  get_indices rounds d place nu = do
    i_nu ← nu_index d nu
    i_phi ← phi_index d (pattern_phi rounds d place)
    i_r ← r_index d d.radius place.r
    ok (i_nu, i_phi, i_r)
