-- ===== src/Astrobj/Properties.antt =====
-- Gyoto::Astrobj::Properties, in lib/Astrobj.C: where the quantities of a pixel are stored. A pointer
-- is an address in the memory of doubles, in units of a double, and none where it is null.
pub mod Cells
mod Tests
use gyoto.Prelude.{
  ℕ, zero, suc, ◌+◌, ◌*◌, Bool, true, false, ◌&&◌, ◌||◌, ◌==◌, if◌then◌else◌, Option, none, some,
  List, [], ◌∷◌,
}
use gyoto.Scenery.Quantities.{
  Quantity, intensity, emissiontime, min_distance, first_dmin, redshift, nbcrosseqplane,
  impactcoords, spectrum, spectrum_stokes_q, spectrum_stokes_u, spectrum_stokes_v, binspectrum,
  user1, user2, user3, user4, user5, bit, Word, all_quantities,
}

-- intensity, time, distance and so on as one function, `offset`, and first_dmin_found
pub record Properties : Type 0 where
  pub pointer : Quantity → Option ℕ
  pub offset : ℕ
  pub first_dmin_found : Bool
  pub alloc : Bool

-- Properties() and Properties(I, t)
abbrev pub new_properties : Properties
new_properties = record { pointer = λ q. none; offset = 1; first_dmin_found = false; alloc = false }

abbrev pub intensity_and_time : Option ℕ → Option ℕ → Quantity → Option ℕ
intensity_and_time i t intensity = i
intensity_and_time i t emissiontime = t
intensity_and_time i t q = none

abbrev pub new_properties_at : Option ℕ → Option ℕ → Properties
new_properties_at i t = record new_properties { pointer = intensity_and_time i t }

-- One value, one for each sample of the spectrometer, or sixteen coordinates.
pub data Shape : Type 0 where
  scalar spectral vector : Shape

abbrev pub shape : Quantity → Shape
shape spectrum = spectral
shape spectrum_stokes_q = spectral
shape spectrum_stokes_u = spectral
shape spectrum_stokes_v = spectral
shape binspectrum = spectral
shape impactcoords = vector
shape q = scalar

-- n addresses from `a` on, `step` apart
abbrev pub spaced : ℕ → ℕ → ℕ → List ℕ
spaced a step zero = []
spaced a step (suc n) = a ∷ spaced (a + step) step n

abbrev pub places : Shape → ℕ → ℕ → ℕ → List ℕ
places scalar n offset a = a ∷ []
places spectral n offset a = spaced a offset n
places vector n offset a = spaced a 1 16

-- The addresses of a quantity, with `n` samples.
abbrev pub touched : ℕ → Properties → Quantity → List ℕ
touched n p q = elim (p.pointer q) [ none ↦ [] | some a ↦ places (shape q) n p.offset a ]

-- How far operator+=(1) moves a pointer.
abbrev pub stride : Shape → ℕ
stride vector = 16
stride other = 1

-- operator+=(k)
unfoldable pub advance : ℕ → Properties → Properties
advance k p = record p {
  pointer = λ q. elim (p.pointer q) [ none ↦ none | some a ↦ some (a + stride (shape q) * k) ];
}

module _ {F : Type 0} (nought infinite : F) where
  -- The value that init gives to a quantity.
  abbrev pub initial_value : Quantity → F
  initial_value emissiontime = infinite
  initial_value min_distance = infinite
  initial_value first_dmin = infinite
  initial_value impactcoords = infinite
  initial_value q = nought

  abbrev pub write_all : List ℕ → F → (ℕ → F) → ℕ → F
  write_all [] v memory = memory
  write_all (a ∷ addresses) v memory = write_all addresses v (λ k. if k == a then v else memory k)

  pub init_all : List Quantity → ℕ → Properties → (ℕ → F) → ℕ → F
  init_all [] n p memory = memory
  init_all (q ∷ qs) n p memory =
      init_all qs n p (write_all (touched n p q) (initial_value q) memory)

  -- The order of init.
  abbrev pub init_order : List Quantity
  init_order =
      intensity ∷ emissiontime ∷ min_distance ∷ first_dmin ∷ redshift ∷ nbcrosseqplane ∷ spectrum
      ∷ spectrum_stokes_q ∷ spectrum_stokes_u ∷ spectrum_stokes_v ∷ binspectrum ∷ impactcoords
      ∷ user1 ∷ user2 ∷ user3 ∷ user4 ∷ user5 ∷ []

  -- init(nbnuobs): the memory and the properties afterwards
  pub init : ℕ → Properties → (ℕ → F) → (ℕ → F) × Properties
  unfolding init_all
  init n p memory = (
    init_all init_order n p memory,
    record p {
      first_dmin_found = elim (p.pointer first_dmin) [ none ↦ p.first_dmin_found | some a ↦ false ];
    },
  )

abbrev pub is_set : Option ℕ → Bool
is_set none = false
is_set (some a) = true

abbrev pub word_of : List Quantity → Properties → Word
word_of [] p k = false
word_of (q ∷ qs) p k = ((k == bit q) && is_set (p.pointer q)) || word_of qs p k

-- operator Quantity_t
pub to_quantities : Properties → Word
to_quantities p = word_of all_quantities p
