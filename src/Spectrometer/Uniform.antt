-- ===== src/Spectrometer/Uniform.antt =====
-- Gyoto::Spectrometer::Uniform, in lib/UniformSpectrometer.C. Arithmetic on `double` is the parameter
-- `Double`; units are converted outside (lib/Converters.C), and so is the text of `kind`.
pub mod Channels
mod Tests
use gyoto.Prelude.{
  ℕ, zero, suc, ◌+◌, Bool, true, false, ◌==◌, ◌||◌, if◌then◌else◌, Option, none, some, List, [],
  ◌∷◌, get_or,
}
use gyoto.Spectrometer.{Generic}

pub record Double (F : Type 0) : Type 0 where
  pub of_size_t : ℕ → F
  pub add : F → F → F
  pub sub : F → F → F
  pub mul : F → F → F
  pub div : F → F → F
  pub pow10 : F → F
  pub fabs : F → F
  pub is_zero : F → Bool
  pub one_half : F
  pub gyoto_c : F
  pub dbl_max : F
  pub nought : F

pub data Kind : Type 0 where
  freq freqlog wave wavelog : Kind

-- `kindid` is none where the pointer is null.
pub record Uniform (F : Type 0) : Type 0 where
  pub generic : Generic F
  pub kindid : Option Kind
  pub band : F × F

abbrev pub is_log : Kind → Bool
is_log freqlog = true
is_log wavelog = true
is_log k = false

abbrev pub is_wave : Kind → Bool
is_wave wave = true
is_wave wavelog = true
is_wave k = false

-- The channel indices that the loop of reset_ writes.
abbrev pub channels_from : ℕ → ℕ → List ℕ
channels_from i zero = []
channels_from i (suc rounds) = i ∷ (i + 1) ∷ channels_from (i + 1) rounds

module _ {F : Type 0} (double : Double F) where
  open double use {
    of_size_t, add, sub, mul, div, pow10, fabs, is_zero, one_half, gyoto_c, dbl_max, nought,
  }

  abbrev pub boundary : Kind → F × F → ℕ → ℕ → F
  boundary k (lo, hi) n i =
      let b = add lo (div (mul (of_size_t i) (sub hi lo)) (of_size_t n)) in
      let b' = if is_log k then pow10 b else b in
      if is_wave k then (if is_zero b' then dbl_max else div gyoto_c b') else b'

  abbrev pub boundaries_from : Kind → F × F → ℕ → ℕ → ℕ → List F
  boundaries_from k band n i zero = []
  boundaries_from k band n i (suc rounds) =
      boundary k band n i ∷ boundaries_from k band n (i + 1) rounds

  -- The second loop of reset_, for the widths and for the midpoints.
  abbrev pub from_pairs : (F → F → F) → List F → ℕ → ℕ → List F
  from_pairs f b i zero = []
  from_pairs f b i (suc rounds) =
      f (get_or b (i + 1) nought) (get_or b i nought) ∷ from_pairs f b (i + 1) rounds

  abbrev pub width : F → F → F
  width hi lo = fabs (sub hi lo)

  abbrev pub midpoint : F → F → F
  midpoint hi lo = add (mul hi one_half) (mul lo one_half)

  abbrev pub clear : Generic F → Generic F
  clear g = record g { boundaries = []; chanind = []; midpoints = []; widths = [] }

  -- What reset_ does after its early return.
  abbrev pub fill : Generic F → Kind → F × F → Generic F
  fill g k band =
      let n = g.nsamples in
      let b = boundaries_from k band n 0 (suc n) in
      record g {
        boundaries = b;
        chanind = channels_from 0 n;
        midpoints = from_pairs midpoint b 0 n;
        widths = from_pairs width b 0 n;
      }

  -- reset_, with whether the listeners are told.
  pub reset : Uniform F → Uniform F × Bool
  reset u = elim u.kindid [
    | none ↦ (record u { generic = clear u.generic }, false)
    | some k ↦
        if u.generic.nsamples == 0
        then (record u { generic = clear u.generic }, false)
        else (record u { generic = fill u.generic k u.band }, true)
  ]

  abbrev pub unset : Generic F
  unset = record {
    nsamples = 0;
    nboundaries = 0;
    boundaries = [];
    chanind = [];
    midpoints = [];
    widths = [];
  }

  -- Uniform(nsamples, band_min, band_max, kin)
  pub construct : ℕ → F → F → Option Kind → Uniform F
  unfolding reset
  construct nsamples lo hi kin =
      let u : Uniform F = record {
        generic = record unset { nsamples = nsamples };
        kindid = kin;
        band = (lo, hi);
      } in
      elim kin [ none ↦ u | some k ↦ if nsamples == 0 then u else (reset u).0 ]

  -- The setters: nSamples, band and kindid.
  pub set_nsamples : ℕ → Uniform F → Uniform F × Bool
  unfolding reset
  set_nsamples n u =
      reset (record u { generic = record u.generic { nsamples = n; nboundaries = n + 1 } })

  pub set_band : F × F → Uniform F → Uniform F × Bool
  unfolding reset
  set_band band u = reset (record u { band = band })

  pub set_kind : Option Kind → Uniform F → Uniform F × Bool
  unfolding reset
  set_kind k u = reset (record u { kindid = k })
