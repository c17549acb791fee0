-- ===== src/Disk3d.antt =====
-- Gyoto::Astrobj::Disk3D, in lib/Disk3D.C: a disk whose emission and velocity are read in a grid over
-- frequency, azimuth, height and radius. A double is `F` with the operations of `Double`; products of
-- dimensions are taken not to wrap, unless written out.
pub mod Changes
pub mod Cells
mod Tests
use gyoto.Prelude.{
  ℕ, ◌+◌, ◌-◌, ◌*◌, ◌%◌, ◌^◌, Bool, true, false, ◌||◌, ◌&&◌, not, ltb, ◌==◌, if◌then◌else◌, Option,
  none, some, List, Outcome, ok, throws, undefined, Error, ◌>>=◌,
}
use gyoto.PatternDisk.{Double, copy_array, copy_or_null}

pub record Disk3d (F : Type 0) : Type 0 where
  pub emissquant : Option (List F)
  pub opacity : Option (List F)
  pub velocity : Option (List F)
  pub dnu : F
  pub nu0 : F
  pub nnu : ℕ
  pub dphi : F
  pub phimin : F
  pub nphi : ℕ
  pub phimax : F
  pub repeat_phi : ℕ
  pub dz : F
  pub zmin : F
  pub nz : ℕ
  pub zmax : F
  pub dr : F
  pub rin : F
  pub nr : ℕ
  pub rout : F
  pub zsym : Bool
  pub t_pattern : F
  pub omega_pattern : F
  -- of Generic
  pub flag_radtransf : Bool

-- The disk after a call that may throw, and what the call comes to.
abbrev pub Call : Type 0 → Type 0
Call F = Disk3d F × Outcome (Unit {0})

module _ {F : Type 0} where
  abbrev pub cells : Disk3d F → ℕ
  cells d = d.nnu * d.nphi * d.nz * d.nr

  pub copy_into : (List F → Disk3d F) → Disk3d F → Outcome (List F) → Call F
  copy_into put d (ok copied) = (put copied, ok tt)
  copy_into put d (throws e) = (d, throws e)
  copy_into put d undefined = (d, undefined)

  pub needs_emissquant : Option (List F) → Disk3d F → Call F → Call F
  needs_emissquant none d call = (d, throws Error.no_emission)
  needs_emissquant (some e) d call = call

  -- The dimensions of copyEmissquant. The velocities are freed where those of the space change.
  pub set_dimensions : ℕ × ℕ × ℕ × ℕ → Disk3d F → Disk3d F
  set_dimensions (n_nu, n_phi, n_z, n_r) d = record d {
    velocity =
        if not (d.nphi == n_phi) || (not (d.nz == n_z) || not (d.nr == n_r))
        then none
        else d.velocity;
    nnu = n_nu;
    nphi = n_phi;
    nz = n_z;
    nr = n_r;
  }

  -- copyOpacity(opac, naxes)
  pub copy_opacity : Option (List F) → ℕ × ℕ × ℕ × ℕ → Disk3d F → Call F
  unfolding copy_into
  copy_opacity opac (n_nu, n_phi, n_z, n_r) d =
      let d' = record d {
        opacity = none;
        flag_radtransf = elim d.opacity [ none ↦ d.flag_radtransf | some old ↦ false ];
      } in
      elim opac [
        | none ↦ (d', ok tt)
        | some source ↦
            if not (d.nnu == n_nu)
              || (not (d.nphi == n_phi) || (not (d.nz == n_z) || not (d.nr == n_r)))
            then (d', throws Error.dimensions_differ)
            else copy_into (λ copied. record d' { opacity = some copied; flag_radtransf = true }) d'
                (copy_array (cells d) source)
      ]

  -- copyVelocity(velocity, naxes)
  pub copy_velocity : Option (List F) → ℕ × ℕ × ℕ → Disk3d F → Call F
  unfolding copy_into needs_emissquant
  copy_velocity vel (n_phi, n_z, n_r) d =
      let d' = record d { velocity = none } in
      elim vel [
        | none ↦ (d', ok tt)
        | some source ↦ needs_emissquant d.emissquant d' (
            if not (d.nphi == n_phi) || (not (d.nz == n_z) || not (d.nr == n_r))
            then (d', throws Error.dimensions_differ)
            else copy_into (λ copied. record d' { velocity = some copied }) d'
                (copy_array (3 * d.nphi * d.nz * d.nr) source))
      ]

  -- setEmissquant(pattern), opacity(pattern) and setVelocity(pattern): the pointer is stored.
  pub set_emissquant : Option (List F) → Disk3d F → Disk3d F
  set_emissquant pattern d = record d { emissquant = pattern }

  pub set_opacity : Option (List F) → Disk3d F → Disk3d F
  set_opacity pattern d = record d { opacity = pattern }

  pub set_velocity : Option (List F) → Disk3d F → Disk3d F
  set_velocity pattern d = record d { velocity = pattern }

  -- clone(): the copy constructor
  pub clone : Disk3d F → Outcome (Disk3d F)
  clone d = do
    e ← copy_or_null (cells d) d.emissquant
    o ← copy_or_null (cells d) d.opacity
    v ← copy_or_null (3 * d.nphi * d.nz * d.nr) d.velocity
    ok (record d { emissquant = e; opacity = o; velocity = v })

module _ {F : Type 0} (double : Double F) where
  open double use {nought, one, infinite, sub, div, of_size_t}

  -- (nphi_-1)*repeat_phi_ on size_t
  abbrev pub azimuthal_step : Disk3d F → F
  azimuthal_step d =
      div (sub d.phimax d.phimin) (of_size_t ((d.nphi + 2 ^ 64 - 1) * d.repeat_phi % 2 ^ 64))

  abbrev pub radial_step : Disk3d F → F
  radial_step d = div (sub d.rout d.rin) (of_size_t (d.nr - 1))

  abbrev pub height_step : Disk3d F → F
  height_step d = div (sub d.zmax d.zmin) (of_size_t (d.nz - 1))

  -- copyEmissquant once the dimensions are set
  pub fill_emissquant : List F → Disk3d F → Call F
  unfolding copy_into
  fill_emissquant source d =
      if cells d == 0
      then (d, throws Error.dimension_null)
      else (if d.nr == 1 || (d.nz == 1 || d.nphi == 1)
          then (d, throws Error.dimension_one)
          else (let stepped = record d { dr = radial_step d; dz = height_step d } in
              if d.repeat_phi == 0
              then (stepped, throws Error.repeat_phi_null)
              else (let d' = record stepped { dphi = azimuthal_step d } in
                  copy_into (λ copied. record d' { emissquant = some copied }) d'
                    (copy_array (cells d) source))))

  -- copyEmissquant(pattern, naxes)
  pub copy_emissquant : Option (List F) → ℕ × ℕ × ℕ × ℕ → Disk3d F → Call F
  unfolding fill_emissquant set_dimensions
  copy_emissquant pattern naxes d =
      let freed = record d { emissquant = none } in
      elim pattern [
        | none ↦ (freed, ok tt)
        | some source ↦ fill_emissquant source (set_dimensions naxes freed)
      ]

  -- repeatPhi(n)
  pub set_repeat_phi : ℕ → Disk3d F → Disk3d F
  set_repeat_phi n d =
      let d' = record d { repeat_phi = n } in
      record d' { dphi = if ltb 1 d.nphi && ltb 0 n then azimuthal_step d' else d.dphi }

  -- phimin(phi) and phimax(phi), which leave repeat_phi_ out
  abbrev pub set_azimuthal_step : Disk3d F → Disk3d F
  set_azimuthal_step d = record d {
    dphi = if ltb 1 d.nphi then div (sub d.phimax d.phimin) (of_size_t (d.nphi - 1)) else d.dphi;
  }

  pub set_phimin : F → Disk3d F → Disk3d F
  set_phimin phi d = set_azimuthal_step (record d { phimin = phi })

  pub set_phimax : F → Disk3d F → Disk3d F
  set_phimax phi d = set_azimuthal_step (record d { phimax = phi })

  abbrev pub set_radial_step : Disk3d F → Disk3d F
  set_radial_step d = record d { dr = if ltb 1 d.nr then radial_step d else d.dr }

  -- rin(r) and rout(r)
  pub set_rin : F → Disk3d F → Disk3d F
  set_rin r d = set_radial_step (record d { rin = r })

  pub set_rout : F → Disk3d F → Disk3d F
  set_rout r d = set_radial_step (record d { rout = r })

  abbrev pub set_height_step : Disk3d F → Disk3d F
  set_height_step d = record d { dz = if ltb 1 d.nz then height_step d else d.dz }

  -- zmin(z) and zmax(z)
  pub set_zmin : F → Disk3d F → Disk3d F
  set_zmin z d = set_height_step (record d { zmin = z })

  pub set_zmax : F → Disk3d F → Disk3d F
  set_zmax z d = set_height_step (record d { zmax = z })

  -- The constructor; DBL_MAX is `infinite`.
  pub new_disk : Disk3d F
  new_disk = record {
    emissquant = none;
    opacity = none;
    velocity = none;
    dnu = one;
    nu0 = nought;
    nnu = 0;
    dphi = nought;
    phimin = sub nought infinite;
    nphi = 0;
    phimax = infinite;
    repeat_phi = 1;
    dz = nought;
    zmin = sub nought infinite;
    nz = 0;
    zmax = infinite;
    dr = nought;
    rin = sub nought infinite;
    nr = 0;
    rout = infinite;
    zsym = true;
    t_pattern = nought;
    omega_pattern = nought;
    flag_radtransf = false;
  }
