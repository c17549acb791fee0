-- ===== src/Disk3d/Changes.antt =====
-- A Disk3D from its constructor on, through any calls of its operations.
use gyoto.Prelude.{
  ℕ, ◌*◌, ◌≡◌, refl, Bool, true, false, ◌||◌, not, ◌==◌, if◌then◌else◌, Option, none, some, List,
  [], ◌∷◌, Outcome, ok, throws, undefined, Error, arith,
}
use gyoto.PatternDisk.{Double, copy_array}
use gyoto.PatternDisk.Sound.{HasSize, copy_array-length, kept_or_freed}
use gyoto.Disk3d.{
  Disk3d, Call, cells, copy_into, needs_emissquant, set_dimensions, copy_opacity, copy_velocity,
  fill_emissquant, radial_step, height_step, azimuthal_step, copy_emissquant, set_repeat_phi,
  set_phimin, set_phimax, set_rin, set_rout, set_zmin, set_zmax, set_emissquant, set_opacity,
  set_velocity, new_disk,
}

-- The emission and the velocities are null or have the size that the dimensions announce.
abbrev pub IsSound : {F : Type 0} → Disk3d F → Type 0
IsSound d = HasSize (cells d) d.emissquant × HasSize (3 * d.nphi * d.nz * d.nr) d.velocity

-- A call leaves such a disk, also where it throws.
record SoundCall {F : Type 0} (call : Call F) : Type 0 where
  sound : IsSound call.0

-- The calls that change a disk. The last three store the caller's pointer: setEmissquant, opacity and
-- setVelocity. Reading a file is left out.
pub data Change (F : Type 0) : Type 0 where
  emissquant opacity : Option (List F) → ℕ × ℕ × ℕ × ℕ → Change F
  velocity : Option (List F) → ℕ × ℕ × ℕ → Change F
  repetition : ℕ → Change F
  first_azimuth last_azimuth inner_radius outer_radius lowest highest : F → Change F
  emissquant_pointer opacity_pointer velocity_pointer : Option (List F) → Change F

same_space :
    (a b c a' b' c' : ℕ)
    → not (a == a') || (not (b == b') || not (c == c')) ≡ false
    → 3 * a * b * c ≡ 3 * a' * b' * c'
same_space a b c a' b' c' e =
    let first : a ≡ a' = ground (arith, e) in
    let second : b ≡ b' = ground (arith, e) in
    let third : c ≡ c' = ground (arith, e) in rw (first, second, third) refl

module _ {F : Type 0} where
  if-IsSound :
      (b : Bool) (x y : Call F) → SoundCall x → SoundCall y → SoundCall (if b then x else y)
  if-IsSound true x y h k = h
  if-IsSound false x y h k = k

  copy_into-IsSound :
      (put : List F → Disk3d F) (d : Disk3d F) (r : Outcome (List F))
      → IsSound d
      → ((copied : List F) → r ≡ ok copied → IsSound (put copied))
      → SoundCall (copy_into put d r)
  unfolding copy_into
  copy_into-IsSound put d (ok copied) h k = record { sound = k copied refl }
  copy_into-IsSound put d (throws e) h k = record { sound = h }
  copy_into-IsSound put d undefined h k = record { sound = h }

  needs_emissquant-IsSound :
      (e : Option (List F)) (d : Disk3d F) (call : Call F)
      → IsSound d
      → SoundCall call
      → SoundCall (needs_emissquant e d call)
  unfolding needs_emissquant
  needs_emissquant-IsSound none d call h k = record { sound = h }
  needs_emissquant-IsSound (some e) d call h k = k

  copy_opacity-IsSound :
      (opac : Option (List F)) (naxes : ℕ × ℕ × ℕ × ℕ) (d : Disk3d F)
      → IsSound d
      → SoundCall (copy_opacity opac naxes d)
  unfolding copy_opacity
  copy_opacity-IsSound none naxes d h = record { sound = h }
  copy_opacity-IsSound (some source) (n_nu, n_phi, n_z, n_r) d h =
      if-IsSound _ _ _ (record { sound = h })
        (copy_into-IsSound _ _ (copy_array (cells d) source) h (λ copied e. h))

  copy_velocity-IsSound :
      (vel : Option (List F)) (naxes : ℕ × ℕ × ℕ) (d : Disk3d F)
      → IsSound d
      → SoundCall (copy_velocity vel naxes d)
  unfolding copy_velocity
  copy_velocity-IsSound none naxes d (he, hv) = record { sound = (he, tt) }
  copy_velocity-IsSound (some source) (n_phi, n_z, n_r) d (he, hv) =
      let n = 3 * d.nphi * d.nz * d.nr in
      needs_emissquant-IsSound d.emissquant _ _ (he, tt)
        (if-IsSound _ _ _ (record { sound = (he, tt) })
          (copy_into-IsSound _ _ (copy_array n source) (he, tt)
            (λ copied e. (he, copy_array-length n source e))))

module _ {F : Type 0} (double : Double F) where
  fill_emissquant-IsSound :
      (source : List F) (d : Disk3d F) → IsSound d → SoundCall (fill_emissquant double source d)
  unfolding fill_emissquant
  fill_emissquant-IsSound source d (he, hv) =
      let stepped = record d { dr = radial_step double d; dz = height_step double d } in
      let d' = record stepped { dphi = azimuthal_step double d } in
      let kept : (e : Outcome (Unit {0})) → SoundCall (d, e) = λ e. record { sound = (he, hv) } in
      if-IsSound (cells d == 0) (d, throws Error.dimension_null) _ (kept _)
        (if-IsSound (d.nr == 1 || (d.nz == 1 || d.nphi == 1)) (d, throws Error.dimension_one) _
          (kept _)
          (if-IsSound (d.repeat_phi == 0) (stepped, throws Error.repeat_phi_null) _
            (record { sound = (he, hv) })
            (copy_into-IsSound (λ copied. record d' { emissquant = some copied }) d'
              (copy_array (cells d) source) (he, hv)
              (λ copied e. (copy_array-length (cells d) source e, hv)))))

  copy_emissquant-IsSound :
      (pattern : Option (List F)) (naxes : ℕ × ℕ × ℕ × ℕ) (d : Disk3d F)
      → IsSound d
      → SoundCall (copy_emissquant double pattern naxes d)
  unfolding copy_emissquant set_dimensions
  copy_emissquant-IsSound none naxes d (he, hv) = record { sound = (tt, hv) }
  copy_emissquant-IsSound (some source) (n_nu, n_phi, n_z, n_r) d (he, hv) =
      fill_emissquant-IsSound source
        (set_dimensions (n_nu, n_phi, n_z, n_r) (record d { emissquant = none }))
        (
          tt,
          kept_or_freed (not (d.nphi == n_phi) || (not (d.nz == n_z) || not (d.nr == n_r)))
              d.velocity (3 * d.nphi * d.nz * d.nr) (3 * n_phi * n_z * n_r) hv
              (same_space d.nphi d.nz d.nr n_phi n_z n_r),
        )

  -- The disk after a call, also after one that throws.
  unfoldable pub apply : Change F → Disk3d F → Disk3d F
  apply (emissquant pattern naxes) d = (copy_emissquant double pattern naxes d).0
  apply (opacity opac naxes) d = (copy_opacity opac naxes d).0
  apply (velocity vel naxes) d = (copy_velocity vel naxes d).0
  apply (repetition n) d = set_repeat_phi double n d
  apply (first_azimuth phi) d = set_phimin double phi d
  apply (last_azimuth phi) d = set_phimax double phi d
  apply (inner_radius r) d = set_rin double r d
  apply (outer_radius r) d = set_rout double r d
  apply (lowest z) d = set_zmin double z d
  apply (highest z) d = set_zmax double z d
  apply (emissquant_pointer pattern) d = set_emissquant pattern d
  apply (opacity_pointer pattern) d = set_opacity pattern d
  apply (velocity_pointer pattern) d = set_velocity pattern d

  -- The caller gives a null pointer or an array of the size that the disk announces at that time.
  abbrev pub Suits : Change F → Disk3d F → Type 0
  Suits (emissquant_pointer pattern) d = HasSize (cells d) pattern
  Suits (velocity_pointer pattern) d = HasSize (3 * d.nphi * d.nz * d.nr) pattern
  Suits c d = Unit {0}

  -- The disk after calls, the last one first.
  unfoldable pub reached : List (Change F) → Disk3d F
  unfolding apply
  reached [] = new_disk double
  reached (c ∷ cs) = apply c (reached cs)

  apply-IsSound : (c : Change F) (d : Disk3d F) → Suits c d → IsSound d → IsSound (apply c d)
  unfolding apply set_emissquant set_opacity set_velocity set_repeat_phi set_phimin set_phimax
      set_rin set_rout set_zmin set_zmax
  apply-IsSound (emissquant pattern naxes) d fit h =
      (copy_emissquant-IsSound pattern naxes d h).sound
  apply-IsSound (opacity opac naxes) d fit h = (copy_opacity-IsSound opac naxes d h).sound
  apply-IsSound (velocity vel naxes) d fit h = (copy_velocity-IsSound vel naxes d h).sound
  apply-IsSound (repetition n) d fit h = h
  apply-IsSound (first_azimuth phi) d fit h = h
  apply-IsSound (last_azimuth phi) d fit h = h
  apply-IsSound (inner_radius r) d fit h = h
  apply-IsSound (outer_radius r) d fit h = h
  apply-IsSound (lowest z) d fit h = h
  apply-IsSound (highest z) d fit h = h
  apply-IsSound (emissquant_pointer pattern) d fit h = (fit, h.1)
  apply-IsSound (opacity_pointer pattern) d fit h = h
  apply-IsSound (velocity_pointer pattern) d fit h = (h.0, fit)

  -- Each call suits the disk as the calls before it have left it.
  abbrev pub AllSuit : List (Change F) → Type 0
  AllSuit [] = Unit {0}
  AllSuit (c ∷ cs) = Suits c (reached cs) × AllSuit cs

  -- After any calls that copy arrays, set a parameter or set the pointer to an array, in any order, some of
  -- which may have thrown, the emission and the velocities of a Disk3D are null or have the size that
  -- the dimensions announce. An emission or velocities whose pointer is set have the size announced at
  -- that time; no file is read.
  pub reached-IsSound : (cs : List (Change F)) → AllSuit cs → IsSound (reached cs)
  unfolding reached new_disk
  reached-IsSound [] fit = (tt, tt)
  reached-IsSound (c ∷ cs) (fit, fits) = apply-IsSound c (reached cs) fit (reached-IsSound cs fits)
