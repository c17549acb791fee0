-- ===== src/PatternDisk/Sound.antt =====
-- The arrays of a PatternDisk have the sizes that its dimensions announce, whatever is set, and
-- also after an operation that throws.
pub mod Copies
use gyoto.Prelude.{
  ℕ, zero, suc, ◌-◌, ◌*◌, ◌≡◌, ◌<◌, inl, inr, refl, ap, subst, Bool, Bool-cases, true, false, ◌||◌,
  not, leb, ◌==◌, if◌then◌else◌, Option, none, some, List, take, length, length-take, get_elem?, ok,
  ok-injective, undefined, arith,
}
use gyoto.PatternDisk.{
  PatternDisk, Call, needs_emission, set_limits, Double, copy_array, copy_into, set_dimensions,
  copy_opacity, free_opacity, copy_velocity, fill_emission, radial_step, copy_intensity, set_radius,
  copy_grid_radius, set_azimuthal_step,
}

-- A null pointer, or an array of `n` values.
abbrev pub HasSize : {F : Type 0} → ℕ → Option (List F) → Type 0
HasSize n none = Unit {0}
HasSize n (some a) = length a ≡ n

-- Where there is an emission, it can be interpolated in radius.
abbrev pub IsGrid : {F : Type 0} → Option (List F) → ℕ → ℕ → ℕ → Type 0
IsGrid none n_nu n_phi n_r = Unit {0}
IsGrid (some e) n_nu n_phi n_r = (0 < n_nu) × (0 < n_phi) × (1 < n_r)

pub record IsSound {F : Type 0} (d : PatternDisk F) : Type 0 where
  pub grid : IsGrid d.emission d.nnu d.nphi d.nr
  pub emission_size : HasSize (d.nnu * d.nphi * d.nr) d.emission
  pub opacity_size : HasSize (d.nnu * d.nphi * d.nr) d.opacity
  pub velocity_size : HasSize (2 * d.nphi * d.nr) d.velocity
  pub radius_size : HasSize d.nr d.radius

pub grid_of_cells :
    (a b c : ℕ) → a * b * c == 0 ≡ false → c == 1 ≡ false → (0 < a) × (0 < b) × (1 < c)
grid_of_cells zero b c cells wide = absurd (ground (arith, cells))
grid_of_cells (suc a) zero c cells wide = absurd (ground (arith, cells))
grid_of_cells (suc a) (suc b) zero cells wide = absurd (ground (arith, cells))
grid_of_cells (suc a) (suc b) (suc c) cells wide = (omega arith, omega arith, ground (arith, wide))

module _ {F : Type 0} where
  pub copy_array-length :
      (n : ℕ) (source : List F) {copied : List F}
      → copy_array n source ≡ ok copied
      → length copied ≡ n
  unfolding copy_array
  copy_array-length n source {copied} e = elim (Bool-cases (leb n (length source))) [
    | inl long ↦
        let e' : ok (take n source) ≡ ok copied = rw (copy_array, long) at e in
        let t : take n source ≡ copied = ok-injective e' in
        ground (arith, length-take n source, ap (length {A = F}) t)
    | inr short ↦ let e' : undefined ≡ ok copied = rw (copy_array, short) at e in cc
  ]

  pub kept_or_freed :
      (freed : Bool) (a : Option (List F)) (n m : ℕ)
      → HasSize n a
      → (freed ≡ false → n ≡ m)
      → HasSize m (if freed then none else a)
  kept_or_freed true a n m h same = tt
  kept_or_freed false a n m h same = subst (λ k. HasSize k a) (same refl) h

  pub copy_into-IsSound :
      (put : List F → PatternDisk F) (d : PatternDisk F) (n : ℕ) (source : List F)
      → IsSound d
      → ((copied : List F) → length copied ≡ n → IsSound (put copied))
      → IsSound (copy_into put d (copy_array n source)).0
  unfolding copy_into copy_array
  copy_into-IsSound put d n source h stored = elim (Bool-cases (leb n (length source))) [
    | inl long ↦
        rw long (stored (take n source) (copy_array-length n source (rw (copy_array, long) refl)))
    | inr short ↦ rw short h
  ]

  pub set_dimensions-IsSound :
      (n_nu n_phi n_r : ℕ) (d : PatternDisk F)
      → d.emission ≡ none
      → IsSound d
      → IsSound (set_dimensions n_nu n_phi n_r d)
  unfolding set_dimensions
  set_dimensions-IsSound n_nu n_phi n_r d bare h = record {
    grid = rw bare tt;
    emission_size = rw bare tt;
    opacity_size =
        kept_or_freed (not (d.nnu == n_nu) || (not (d.nphi == n_phi) || not (d.nr == n_r)))
          d.opacity (d.nnu * d.nphi * d.nr) (n_nu * n_phi * n_r) h.opacity_size
          (λ same. ground arith);
    velocity_size =
        kept_or_freed (not (d.nphi == n_phi) || not (d.nr == n_r)) d.velocity (2 * d.nphi * d.nr)
          (2 * n_phi * n_r) h.velocity_size (λ same. ground arith);
    radius_size =
        kept_or_freed (not (d.nr == n_r)) d.radius d.nr n_r h.radius_size (λ same. ground arith);
  }

  pub bare-IsSound : (d : PatternDisk F) → IsSound d → IsSound (record d { emission = none })
  bare-IsSound d h = record {
    grid = tt;
    emission_size = tt;
    opacity_size = h.opacity_size;
    velocity_size = h.velocity_size;
    radius_size = h.radius_size;
  }

  -- The numbers that are no dimension do not matter.
  pub renumbered-IsSound :
      (d : PatternDisk F) (dphi phimin phimax dr rin rout : F) (repeat_phi : ℕ) (flag : Bool)
      → IsSound d
      → IsSound (record d {
        dphi = dphi;
        phimin = phimin;
        phimax = phimax;
        dr = dr;
        rin = rin;
        rout = rout;
        repeat_phi = repeat_phi;
        flag_radtransf = flag;
      })
  renumbered-IsSound d dphi phimin phimax dr rin rout repeat_phi flag h = record {
    grid = h.grid;
    emission_size = h.emission_size;
    opacity_size = h.opacity_size;
    velocity_size = h.velocity_size;
    radius_size = h.radius_size;
  }

  pub free_opacity-IsSound : (d : PatternDisk F) → IsSound d → IsSound (free_opacity d)
  free_opacity-IsSound d h = record {
    grid = h.grid;
    emission_size = h.emission_size;
    opacity_size = tt;
    velocity_size = h.velocity_size;
    radius_size = h.radius_size;
  }

  pub opacity-IsSound :
      (d : PatternDisk F) (copied : List F) (flag : Bool)
      → length copied ≡ d.nnu * d.nphi * d.nr
      → IsSound d
      → IsSound (record d { opacity = some copied; flag_radtransf = flag })
  opacity-IsSound d copied flag n h = record {
    grid = h.grid;
    emission_size = h.emission_size;
    opacity_size = n;
    velocity_size = h.velocity_size;
    radius_size = h.radius_size;
  }

  pub velocity-IsSound :
      (d : PatternDisk F) (vel : Option (List F))
      → HasSize (2 * d.nphi * d.nr) vel
      → IsSound d
      → IsSound (record d { velocity = vel })
  velocity-IsSound d vel n h = record {
    grid = h.grid;
    emission_size = h.emission_size;
    opacity_size = h.opacity_size;
    velocity_size = n;
    radius_size = h.radius_size;
  }

  pub radius-IsSound :
      (d : PatternDisk F) (rad : Option (List F))
      → HasSize d.nr rad
      → IsSound d
      → IsSound (record d { radius = rad })
  radius-IsSound d rad n h = record {
    grid = h.grid;
    emission_size = h.emission_size;
    opacity_size = h.opacity_size;
    velocity_size = h.velocity_size;
    radius_size = n;
  }

  pub emission-IsSound :
      (d : PatternDisk F) (copied : List F)
      → length copied ≡ d.nnu * d.nphi * d.nr
      → (0 < d.nnu) × (0 < d.nphi) × (1 < d.nr)
      → IsSound d
      → IsSound (record d { emission = some copied })
  emission-IsSound d copied n grid h = record {
    grid = grid;
    emission_size = n;
    opacity_size = h.opacity_size;
    velocity_size = h.velocity_size;
    radius_size = h.radius_size;
  }

  pub needs_emission-IsSound :
      (e : Option (List F)) (d : PatternDisk F) (call : Call F)
      → IsSound d
      → IsSound call.0
      → IsSound (needs_emission e d call).0
  unfolding needs_emission
  needs_emission-IsSound none d call h k = h
  needs_emission-IsSound (some e) d call h k = k

  pub if-IsSound :
      (b : Bool) (x y : Call F)
      → IsSound x.0
      → (b ≡ false → IsSound y.0)
      → IsSound (if b then x else y).0
  if-IsSound true x y h k = h
  if-IsSound false x y h k = k refl
