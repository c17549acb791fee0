-- ===== src/PatternDisk/Changes.antt =====
-- A PatternDisk from its constructor on, through any calls of its operations, and its copies.
use gyoto.Prelude.{
  ℕ, zero, suc, ◌*◌, ◌≡◌, ◌<◌, refl, sym, subst, true, false, leb, Option, none, some, List, [],
  ◌∷◌, length, take, ok, undefined, arith,
}
use gyoto.PatternDisk.{
  PatternDisk, Double, new_disk, copy_array, copy_or_null, copy_intensity, copy_opacity,
  copy_velocity, copy_grid_radius, set_repeat_phi, set_phimin, set_phimax, set_inner_radius,
  set_outer_radius, set_emission, set_velocity, set_grid_radius, clone,
}
use gyoto.PatternDisk.Sound.{IsSound, HasSize, IsGrid, renumbered-IsSound}
use gyoto.PatternDisk.Sound.Copies.{
  copy_intensity-IsSound, copy_opacity-IsSound, copy_velocity-IsSound, copy_grid_radius-IsSound,
}

fewer : (a b : ℕ) → 0 < a → 0 < b → b < 2 * a * b
fewer zero b h k = absurd (omega (arith, h))
fewer (suc a) b h k = grind arith

-- The calls that change a disk. The last three store the caller's pointer: setEmission, setVelocity and
-- radius. Reading a file is left out.
pub data Change (F : Type 0) : Type 0 where
  intensity : Option (List F) → ℕ × ℕ × ℕ → Change F
  opacity : Option (List F) → ℕ × ℕ × ℕ → Change F
  velocity : Option (List F) → ℕ × ℕ → Change F
  grid_radius : Option (List F) → ℕ → Change F
  repetition : ℕ → Change F
  first_azimuth last_azimuth inner_radius outer_radius : F → Change F
  emission_pointer velocity_pointer radius_pointer : Option (List F) → Change F

module _ {F : Type 0} (double : Double F) where
  -- The disk after a call, also after one that throws.
  unfoldable pub apply : Change F → PatternDisk F → PatternDisk F
  apply (intensity pattern naxes) d = (copy_intensity double pattern naxes d).0
  apply (opacity opac naxes) d = (copy_opacity opac naxes d).0
  apply (velocity vel naxes) d = (copy_velocity vel naxes d).0
  apply (grid_radius rad n_r) d = (copy_grid_radius double rad n_r d).0
  apply (repetition n) d = set_repeat_phi double n d
  apply (first_azimuth phi) d = set_phimin double phi d
  apply (last_azimuth phi) d = set_phimax double phi d
  apply (inner_radius r) d = set_inner_radius double r d
  apply (outer_radius r) d = set_outer_radius double r d
  apply (emission_pointer pattern) d = set_emission pattern d
  apply (velocity_pointer pattern) d = set_velocity pattern d
  apply (radius_pointer pattern) d = set_grid_radius pattern d

  -- The caller gives a null pointer or an array of the size that the disk announces at that time, for an
  -- emission in at least one frequency, one azimuth and two radii.
  abbrev pub Suits : Change F → PatternDisk F → Type 0
  Suits (emission_pointer pattern) d =
      IsGrid pattern d.nnu d.nphi d.nr × HasSize (d.nnu * d.nphi * d.nr) pattern
  Suits (velocity_pointer pattern) d = HasSize (2 * d.nphi * d.nr) pattern
  Suits (radius_pointer pattern) d = HasSize d.nr pattern
  Suits c d = Unit {0}

  -- The disk after calls, the last one first.
  unfoldable pub after : List (Change F) → PatternDisk F
  unfolding apply
  after [] = new_disk double
  after (c ∷ cs) = apply c (after cs)

  apply-IsSound : (c : Change F) (d : PatternDisk F) → Suits c d → IsSound d → IsSound (apply c d)
  unfolding apply set_emission set_velocity set_grid_radius set_repeat_phi set_phimin set_phimax
      set_inner_radius set_outer_radius
  apply-IsSound (intensity pattern naxes) d fit h = copy_intensity-IsSound double pattern naxes d h
  apply-IsSound (opacity opac naxes) d fit h = copy_opacity-IsSound opac naxes d h
  apply-IsSound (velocity vel naxes) d fit h = copy_velocity-IsSound vel naxes d h
  apply-IsSound (grid_radius rad n_r) d fit h = copy_grid_radius-IsSound double rad n_r d h
  apply-IsSound (repetition n) d fit h =
      let d' = set_repeat_phi double n d in
      renumbered-IsSound d d'.dphi d.phimin d.phimax d.dr d.rin d.rout n d.flag_radtransf h
  apply-IsSound (first_azimuth phi) d fit h =
      let d' = set_phimin double phi d in
      renumbered-IsSound d d'.dphi phi d.phimax d.dr d.rin d.rout d.repeat_phi d.flag_radtransf h
  apply-IsSound (last_azimuth phi) d fit h =
      let d' = set_phimax double phi d in
      renumbered-IsSound d d'.dphi d.phimin phi d.dr d.rin d.rout d.repeat_phi d.flag_radtransf h
  apply-IsSound (inner_radius r) d fit h =
      let d' = set_inner_radius double r d in
      renumbered-IsSound d d.dphi d.phimin d.phimax d'.dr r d.rout d.repeat_phi d.flag_radtransf h
  apply-IsSound (outer_radius r) d fit h =
      let d' = set_outer_radius double r d in
      renumbered-IsSound d d.dphi d.phimin d.phimax d'.dr d.rin r d.repeat_phi d.flag_radtransf h
  apply-IsSound (emission_pointer pattern) d fit h = record {
    grid = fit.0;
    emission_size = fit.1;
    opacity_size = h.opacity_size;
    velocity_size = h.velocity_size;
    radius_size = h.radius_size;
  }
  apply-IsSound (velocity_pointer pattern) d fit h = record {
    grid = h.grid;
    emission_size = h.emission_size;
    opacity_size = h.opacity_size;
    velocity_size = fit;
    radius_size = h.radius_size;
  }
  apply-IsSound (radius_pointer pattern) d fit h = record {
    grid = h.grid;
    emission_size = h.emission_size;
    opacity_size = h.opacity_size;
    velocity_size = h.velocity_size;
    radius_size = fit;
  }

  new_disk-IsSound : IsSound (new_disk double)
  unfolding new_disk
  new_disk-IsSound = record {
    grid = tt;
    emission_size = tt;
    opacity_size = tt;
    velocity_size = tt;
    radius_size = tt;
  }

  -- Each call suits the disk as the calls before it have left it.
  abbrev pub AllSuit : List (Change F) → Type 0
  AllSuit [] = Unit {0}
  AllSuit (c ∷ cs) = Suits c (after cs) × AllSuit cs

  -- After any calls that copy arrays, set a parameter or set the pointer to an array, in any order, some of
  -- which may have thrown, each array of a PatternDisk is null or has the size that the dimensions
  -- announce, and an emission has a frequency, an azimuth and two radii. An array whose pointer is set
  -- has the size announced at that time; no file is read.
  pub after-IsSound : (cs : List (Change F)) → AllSuit cs → IsSound (after cs)
  unfolding after
  after-IsSound [] fit = new_disk-IsSound
  after-IsSound (c ∷ cs) (fit, fits) = apply-IsSound c (after cs) fit (after-IsSound cs fits)

  take_all : (n : ℕ) (source : List F) → length source ≡ n → take n source ≡ source
  take_all zero [] e = refl
  take_all zero (x ∷ source) e = absurd (omega (arith, e))
  take_all (suc n) [] e = absurd (omega (arith, e))
  take_all (suc n) (x ∷ source) e =
      let t : take n source ≡ source = take_all n source (omega (arith, e)) in rw t refl

  copy_or_null_exact : (n : ℕ) (a : Option (List F)) → HasSize n a → copy_or_null n a ≡ ok a
  unfolding copy_or_null copy_array
  copy_or_null_exact n none h = refl
  copy_or_null_exact n (some source) h =
      let long : leb n (length source) ≡ true = ground arith in
      rw (copy_or_null, copy_array, long, take_all n source h) refl

  copy_or_null_short :
      (n : ℕ) (source : List F) → length source < n → copy_or_null n (some source) ≡ undefined
  unfolding copy_or_null copy_array
  copy_or_null_short n source h =
      let short : leb n (length source) ≡ false = ground arith in
      rw (copy_or_null, copy_array, short) refl

  no_radii :
      (d : PatternDisk F)
      → d.radius ≡ none
      → copy_or_null (2 * d.nphi * d.nr) d.radius ≡ ok d.radius
  no_radii d bare =
      copy_or_null_exact (2 * d.nphi * d.nr) d.radius
        (subst (HasSize (2 * d.nphi * d.nr)) (sym bare) tt)

  past_radii :
      (d : PatternDisk F) (radii : List F)
      → 0 < d.nphi
      → 0 < d.nr
      → d.radius ≡ some radii
      → HasSize d.nr d.radius
      → copy_or_null (2 * d.nphi * d.nr) d.radius ≡ undefined
  past_radii d radii some_phi some_r e n =
      let m : length radii ≡ d.nr = subst (HasSize d.nr) e n in
      subst (λ r. copy_or_null (2 * d.nphi * d.nr) r ≡ undefined) (sym e)
        (copy_or_null_short (2 * d.nphi * d.nr) radii
          (subst (λ k. k < 2 * d.nphi * d.nr) (sym m) (fewer d.nphi d.nr some_phi some_r)))

  -- The copy of a disk without an array of radii is equal to it. Where there are radii, the copy
  -- constructor reads 2*nphi_*nr_ of them, which is past their end.
  pub clone_lem :
      (d : PatternDisk F)
      → IsSound d
      → 0 < d.nphi
      → 0 < d.nr
      → (d.radius ≡ none → clone double d ≡ ok d)
        × ((radii : List F) → d.radius ≡ some radii → clone double d ≡ undefined)
  unfolding clone
  clone_lem d h some_phi some_r =
      let n = d.nnu * d.nphi * d.nr in
      let same_emission = copy_or_null_exact n d.emission h.emission_size in
      let same_opacity = copy_or_null_exact n d.opacity h.opacity_size in
      let same_velocity = copy_or_null_exact (2 * d.nphi * d.nr) d.velocity h.velocity_size in
      (
        λ bare. rw (same_emission, same_opacity, same_velocity, no_radii d bare) refl,
        λ radii e.
            rw
              (
                same_emission,
                same_opacity,
                same_velocity,
                past_radii d radii some_phi some_r e h.radius_size,
              )
              refl,
      )
