-- ===== src/PatternDisk.antt =====
-- Gyoto::Astrobj::PatternDisk, in lib/PatternDisk.C: a disk whose emission is read in a grid over
-- frequency, azimuth and radius. Here are its arrays and the operations that set them; a double is `F`
-- with the operations of `Double`. The caller's array is a list, and memcpy from one that is too short
-- is undefined. Other products of dimensions are taken not to wrap.
pub mod Sound
mod Tests
pub mod Changes
pub mod Cells
pub mod Emission
use gyoto.Prelude.{
  ℕ, ◌+◌, ◌-◌, ◌*◌, ◌%◌, ◌^◌, Bool, true, false, ◌||◌, not, leb, ltb, ◌==◌, if◌then◌else◌, Option,
  none, some, List, take, length, get_elem?, Outcome, ok, throws, undefined, Error, ◌>>=◌,
}

pub record Double (F : Type 0) : Type 0 where
  pub nought : F
  pub one : F
  pub one_half : F
  -- 2.*M_PI
  pub two_pi : F
  -- DBL_MAX
  pub infinite : F
  pub add : F → F → F
  pub sub : F → F → F
  pub mul : F → F → F
  pub div : F → F → F
  pub fmod : F → F → F
  pub floor : F → F
  pub exp_minus : F → F
  pub lt : F → F → Bool
  pub eq : F → F → Bool
  pub of_size_t : ℕ → F
  -- the conversion to size_t, which is undefined out of range
  pub to_size_t : F → Option ℕ

pub record PatternDisk (F : Type 0) : Type 0 where
  pub emission : Option (List F)
  pub opacity : Option (List F)
  pub velocity : Option (List F)
  pub radius : Option (List F)
  pub omega : F
  pub t0 : F
  pub dnu : F
  pub nu0 : F
  pub nnu : ℕ
  pub dphi : F
  pub phimin : F
  pub nphi : ℕ
  pub phimax : F
  pub repeat_phi : ℕ
  pub dr : F
  pub nr : ℕ
  -- of ThinDisk and Generic
  pub rin : F
  pub rout : F
  pub flag_radtransf : Bool

-- The disk after a call that may throw, and what the call comes to.
abbrev pub Call : Type 0 → Type 0
Call F = PatternDisk F × Outcome (Unit {0})

module _ {F : Type 0} where
  -- new double[n] and memcpy of n values
  unfoldable pub copy_array : ℕ → List F → Outcome (List F)
  copy_array n source = if leb n (length source) then ok (take n source) else undefined

  -- An array is copied into the disk by `put`.
  pub copy_into : (List F → PatternDisk F) → PatternDisk F → Outcome (List F) → Call F
  copy_into put d (ok copied) = (put copied, ok tt)
  copy_into put d (throws e) = (d, throws e)
  copy_into put d undefined = (d, undefined)

  -- The emission has to be set first.
  pub needs_emission : Option (List F) → PatternDisk F → Call F → Call F
  needs_emission none d call = (d, throws Error.no_emission)
  needs_emission (some e) d call = call

  -- Arrays whose dimensions are about to change are freed.
  pub free_arrays : ℕ → ℕ → ℕ → PatternDisk F → PatternDisk F
  free_arrays n_nu n_phi n_r d =
      let same_phi = d.nphi == n_phi in
      let same_r = d.nr == n_r in
      record d {
        opacity = if not (d.nnu == n_nu) || (not same_phi || not same_r) then none else d.opacity;
        velocity = if not same_phi || not same_r then none else d.velocity;
        radius = if not same_r then none else d.radius;
      }

  pub set_dimensions : ℕ → ℕ → ℕ → PatternDisk F → PatternDisk F
  unfolding free_arrays
  set_dimensions n_nu n_phi n_r d = record (free_arrays n_nu n_phi n_r d) {
    nnu = n_nu;
    nphi = n_phi;
    nr = n_r;
  }

  -- (nphi_-1)*repeat_phi_ on size_t
  abbrev pub intervals : PatternDisk F → ℕ
  intervals d = (d.nphi + 2 ^ 64 - 1) * d.repeat_phi % 2 ^ 64

  -- The opacity is freed and, if there is one, flag_radtransf_ is reset.
  abbrev pub free_opacity : PatternDisk F → PatternDisk F
  free_opacity d = record d {
    opacity = none;
    flag_radtransf = elim d.opacity [ none ↦ d.flag_radtransf | some old ↦ false ];
  }

  -- copyOpacity(opac, naxes)
  pub copy_opacity : Option (List F) → ℕ × ℕ × ℕ → PatternDisk F → Call F
  unfolding copy_array copy_into
  copy_opacity opac (n_nu, n_phi, n_r) d =
      let d' = free_opacity d in
      elim opac [
        | none ↦ (d', ok tt)
        | some source ↦
            if not (d.nnu == n_nu) || (not (d.nphi == n_phi) || not (d.nr == n_r))
            then (d', throws Error.dimensions_differ)
            else copy_into (λ copied. record d' { opacity = some copied; flag_radtransf = true }) d'
                (copy_array (d.nnu * d.nphi * d.nr) source)
      ]

  -- copyVelocity(velocity, naxes)
  pub copy_velocity : Option (List F) → ℕ × ℕ → PatternDisk F → Call F
  unfolding copy_array copy_into needs_emission
  copy_velocity vel (n_phi, n_r) d =
      let d' = record d { velocity = none } in
      elim vel [
        | none ↦ (d', ok tt)
        | some source ↦ needs_emission d.emission d' (
            if not (d.nphi == n_phi) || not (d.nr == n_r)
            then (d', throws Error.dimensions_differ)
            else copy_into (λ copied. record d' { velocity = some copied }) d'
                (copy_array (2 * d.nphi * d.nr) source))
      ]

  -- setEmission(pattern), setVelocity(pattern) and radius(pattern): the pointer is stored.
  pub set_emission : Option (List F) → PatternDisk F → PatternDisk F
  set_emission pattern d = record d { emission = pattern }

  pub set_velocity : Option (List F) → PatternDisk F → PatternDisk F
  set_velocity pattern d = record d { velocity = pattern }

  pub set_grid_radius : Option (List F) → PatternDisk F → PatternDisk F
  set_grid_radius pattern d = record d { radius = pattern }

  -- The copy constructor. The copy is undefined where an array is too short.
  pub copy_or_null : ℕ → Option (List F) → Outcome (Option (List F))
  unfolding copy_array
  copy_or_null n none = ok none
  copy_or_null n (some source) = elim (copy_array n source) [
    | ok copied ↦ ok (some copied)
    | throws e ↦ throws e
    | undefined ↦ undefined
  ]

module _ {F : Type 0} (double : Double F) where
  open double use {nought, one, two_pi, infinite, sub, div, of_size_t}

  -- (rout_-rin_)/double(nr_-1)
  abbrev pub radial_step : PatternDisk F → F
  radial_step d = div (sub d.rout d.rin) (of_size_t (d.nr - 1))

  -- (phimax_-phimin_)/double((nphi_-1)*repeat_phi_)
  abbrev pub azimuthal_step : PatternDisk F → F
  azimuthal_step d = div (sub d.phimax d.phimin) (of_size_t (intervals d))

  pub set_azimuthal_step : PatternDisk F → PatternDisk F
  set_azimuthal_step d = record d { dphi = if ltb 1 d.nphi then azimuthal_step d else d.dphi }

  -- copyIntensity once the dimensions are set
  pub fill_emission : List F → PatternDisk F → Call F
  unfolding copy_array copy_into set_azimuthal_step
  fill_emission source d =
      if d.nnu * d.nphi * d.nr == 0
      then (d, throws Error.dimension_null)
      else (if d.nr == 1
          then (d, throws Error.radial_dimension)
          else (let stepped = record d { dr = radial_step d } in
              if d.repeat_phi == 0
              then (stepped, throws Error.repeat_phi_null)
              else (let d' = set_azimuthal_step stepped in
                  copy_into (λ copied. record d' { emission = some copied }) d'
                    (copy_array (d.nnu * d.nphi * d.nr) source))))

  -- copyIntensity(pattern, naxes)
  pub copy_intensity : Option (List F) → ℕ × ℕ × ℕ → PatternDisk F → Call F
  unfolding fill_emission set_dimensions
  copy_intensity pattern (n_nu, n_phi, n_r) d =
      let freed = record d { emission = none } in
      elim pattern [
        | none ↦ (freed, ok tt)
        | some source ↦ fill_emission source (set_dimensions n_nu n_phi n_r freed)
      ]

  pub set_limits : PatternDisk F → Option F → Option F → Call F
  set_limits d (some first) (some last) =
      let d' = record d { rin = first; rout = last } in (record d' { dr = radial_step d' }, ok tt)
  set_limits d none last = (d, undefined)
  set_limits d (some first) none = (d, undefined)

  -- copyGridRadius once the radii are copied: radius_[0] and radius_[nr_-1] are read.
  pub set_radius : PatternDisk F → Outcome (List F) → Call F
  unfolding set_limits
  set_radius d (throws e) = (d, throws e)
  set_radius d undefined = (d, undefined)
  set_radius d (ok copied) =
      let d' = record d { radius = some copied } in
      set_limits d' (get_elem? copied 0) (get_elem? copied (d.nr - 1))

  -- copyGridRadius(rad, nr)
  pub copy_grid_radius : Option (List F) → ℕ → PatternDisk F → Call F
  unfolding copy_array set_radius needs_emission
  copy_grid_radius rad n_r d =
      let d' = record d { radius = none } in
      elim rad [
        | none ↦ (d', ok tt)
        | some source ↦ needs_emission d.emission d' (
            if not (d.nr == n_r)
            then (d', throws Error.dimensions_differ)
            else set_radius d' (copy_array d.nr source))
      ]

  -- repeatPhi(n)
  pub set_repeat_phi : ℕ → PatternDisk F → PatternDisk F
  set_repeat_phi n d =
      let d' = record d { repeat_phi = n } in
      record d' { dphi = if ltb 0 (intervals d') then azimuthal_step d' else d.dphi }

  pub set_phimin : F → PatternDisk F → PatternDisk F
  unfolding set_azimuthal_step
  set_phimin phi d = set_azimuthal_step (record d { phimin = phi })

  pub set_phimax : F → PatternDisk F → PatternDisk F
  unfolding set_azimuthal_step
  set_phimax phi d = set_azimuthal_step (record d { phimax = phi })

  pub set_radial_step : PatternDisk F → PatternDisk F
  set_radial_step d = record d {
    dr = elim d.radius [ none ↦ if ltb 1 d.nr then radial_step d else d.dr | some r ↦ d.dr ];
  }

  -- innerRadius(rin) and outerRadius(rout)
  pub set_inner_radius : F → PatternDisk F → PatternDisk F
  unfolding set_radial_step
  set_inner_radius r d = set_radial_step (record d { rin = r })

  pub set_outer_radius : F → PatternDisk F → PatternDisk F
  unfolding set_radial_step
  set_outer_radius r d = set_radial_step (record d { rout = r })

  -- The constructor, with the limits of ThinDisk, whose DBL_MAX is `infinite`.
  pub new_disk : PatternDisk F
  new_disk = record {
    emission = none;
    opacity = none;
    velocity = none;
    radius = none;
    omega = nought;
    t0 = nought;
    dnu = one;
    nu0 = nought;
    nnu = 0;
    dphi = nought;
    phimin = nought;
    nphi = 0;
    phimax = two_pi;
    repeat_phi = 1;
    dr = nought;
    nr = 0;
    rin = nought;
    rout = infinite;
    flag_radtransf = false;
  }

  -- clone(): the copy constructor
  pub clone : PatternDisk F → Outcome (PatternDisk F)
  unfolding copy_or_null
  clone d = do
    e ← copy_or_null (d.nnu * d.nphi * d.nr) d.emission
    o ← copy_or_null (d.nnu * d.nphi * d.nr) d.opacity
    v ← copy_or_null (2 * d.nphi * d.nr) d.velocity
    r ← copy_or_null (2 * d.nphi * d.nr) d.radius
    ok (record d { emission = e; opacity = o; velocity = v; radius = r })
