-- ===== src/PatternDisk/Sound/Copies.antt =====
-- What the operations that set an array of a PatternDisk do to the sizes of all of them.
use gyoto.Prelude.{
  ℕ, ◌-◌, ◌*◌, inl, inr, refl, Bool-cases, true, ◌||◌, not, leb, ◌==◌, Option, none, some, List,
  take, length, get_elem?,
}
use gyoto.PatternDisk.{
  PatternDisk, set_limits, Double, copy_array, set_dimensions, copy_opacity, free_opacity,
  copy_velocity, fill_emission, radial_step, copy_intensity, set_radius, copy_grid_radius,
  set_azimuthal_step,
}
use gyoto.PatternDisk.Sound.{
  IsSound, renumbered-IsSound, bare-IsSound, copy_array-length, copy_into-IsSound, emission-IsSound,
  free_opacity-IsSound, grid_of_cells, if-IsSound, needs_emission-IsSound, opacity-IsSound,
  radius-IsSound, set_dimensions-IsSound, velocity-IsSound,
}

module _ {F : Type 0} where
  -- copyOpacity keeps the sizes of all arrays right, also where it throws.
  pub copy_opacity-IsSound :
      (opac : Option (List F)) (naxes : ℕ × ℕ × ℕ) (d : PatternDisk F)
      → IsSound d
      → IsSound (copy_opacity opac naxes d).0
  unfolding copy_opacity
  copy_opacity-IsSound none naxes d h = free_opacity-IsSound d h
  copy_opacity-IsSound (some source) (n_nu, n_phi, n_r) d h =
      let h' = free_opacity-IsSound d h in
      elim (Bool-cases (not (d.nnu == n_nu) || (not (d.nphi == n_phi) || not (d.nr == n_r)))) [
        | inl differ ↦ rw differ h'
        | inr agree ↦ rw agree (
            copy_into-IsSound
              (λ copied. record (free_opacity d) { opacity = some copied; flag_radtransf = true })
              (free_opacity d) (d.nnu * d.nphi * d.nr) source h'
              (λ copied n. opacity-IsSound (free_opacity d) copied true n h'))
      ]

  -- So does copyVelocity.
  pub copy_velocity-IsSound :
      (vel : Option (List F)) (naxes : ℕ × ℕ) (d : PatternDisk F)
      → IsSound d
      → IsSound (copy_velocity vel naxes d).0
  unfolding copy_velocity
  copy_velocity-IsSound none naxes d h = velocity-IsSound d none tt h
  copy_velocity-IsSound (some source) (n_phi, n_r) d h =
      let d' = record d { velocity = none } in
      let h' : IsSound d' = velocity-IsSound d none tt h in
      needs_emission-IsSound d.emission d' _ h' (
        if-IsSound (not (d.nphi == n_phi) || not (d.nr == n_r)) _ _ h' (λ agree.
          copy_into-IsSound (λ copied. record d' { velocity = some copied }) d' (2 * d.nphi * d.nr)
            source h' (λ copied n. velocity-IsSound d' (some copied) n h')))

module _ {F : Type 0} (double : Double F) where
  set_limits-IsSound :
      (d : PatternDisk F) (first last : Option F)
      → IsSound d
      → IsSound (set_limits double d first last).0
  unfolding set_limits
  set_limits-IsSound d (some first) (some last) h =
      renumbered-IsSound d d.dphi d.phimin d.phimax
        (radial_step double (record d { rin = first; rout = last })) first last d.repeat_phi
        d.flag_radtransf h
  set_limits-IsSound d none last h = h
  set_limits-IsSound d (some first) none h = h

  set_radius-IsSound :
      (d : PatternDisk F) (source : List F)
      → IsSound d
      → IsSound (set_radius double d (copy_array d.nr source)).0
  unfolding set_radius copy_array
  set_radius-IsSound d source h = elim (Bool-cases (leb d.nr (length source))) [
    | inr short ↦ rw short h
    | inl long ↦
        let copied = take d.nr source in
        let n = copy_array-length d.nr source (rw (copy_array, long) refl) in
        rw long (
          set_limits-IsSound (record d { radius = some copied }) (get_elem? copied 0)
            (get_elem? copied (d.nr - 1)) (radius-IsSound d (some copied) n h))
  ]

  -- And copyGridRadius.
  pub copy_grid_radius-IsSound :
      (rad : Option (List F)) (n_r : ℕ) (d : PatternDisk F)
      → IsSound d
      → IsSound (copy_grid_radius double rad n_r d).0
  unfolding copy_grid_radius
  copy_grid_radius-IsSound none n_r d h = radius-IsSound d none tt h
  copy_grid_radius-IsSound (some source) n_r d h =
      let d' = record d { radius = none } in
      let h' : IsSound d' = radius-IsSound d none tt h in
      needs_emission-IsSound d.emission d' _ h'
        (if-IsSound (not (d.nr == n_r)) _ _ h' (λ agree. set_radius-IsSound d' source h'))

  fill_emission-IsSound :
      (source : List F) (d : PatternDisk F) → IsSound d → IsSound (fill_emission double source d).0
  unfolding fill_emission set_azimuthal_step
  fill_emission-IsSound source d h =
      let stepped = record d { dr = radial_step double d } in
      let h' : IsSound stepped =
        renumbered-IsSound d d.dphi d.phimin d.phimax (radial_step double d) d.rin d.rout
          d.repeat_phi d.flag_radtransf h in
      let d' = set_azimuthal_step double stepped in
      let h'' : IsSound d' =
        renumbered-IsSound stepped d'.dphi d.phimin d.phimax stepped.dr d.rin d.rout d.repeat_phi
          d.flag_radtransf h' in
      if-IsSound (d.nnu * d.nphi * d.nr == 0) _ _ h (λ some_cells.
        if-IsSound (d.nr == 1) _ _ h (λ wide. if-IsSound (d.repeat_phi == 0) _ _ h' (λ repeated.
          copy_into-IsSound (λ copied. record d' { emission = some copied }) d'
            (d.nnu * d.nphi * d.nr) source h''
            (λ copied n.
              emission-IsSound d' copied n (grid_of_cells d.nnu d.nphi d.nr some_cells wide) h''))))

  -- copyIntensity keeps the sizes of all arrays right, also where it throws after it has changed the
  -- dimensions, and gives a grid that can be interpolated.
  pub copy_intensity-IsSound :
      (pattern : Option (List F)) (naxes : ℕ × ℕ × ℕ) (d : PatternDisk F)
      → IsSound d
      → IsSound (copy_intensity double pattern naxes d).0
  unfolding copy_intensity
  copy_intensity-IsSound none naxes d h = bare-IsSound d h
  copy_intensity-IsSound (some source) (n_nu, n_phi, n_r) d h =
      fill_emission-IsSound source (set_dimensions n_nu n_phi n_r (record d { emission = none })) (
        set_dimensions-IsSound n_nu n_phi n_r (record d { emission = none }) refl
          (bare-IsSound d h))
