-- ===== src/Scenery/Quantities.antt =====
-- The quantities that a Scenery computes: Quantity_t of include/GyotoDefs.h as a word of bits, and its
-- reading from a text, writing and counting in lib/Scenery.C. Units::Converter is a parameter.
pub mod RoundTrip
mod Tests
use gyoto.Prelude.{
  ℕ, zero, suc, ◌+◌, ◌-◌, Bool, true, false, ◌||◌, ltb, ◌==◌, if◌then◌else◌, Option, none, some,
  List, [], ◌∷◌, ◌++◌, map, length, take, drop, Text, codes, same, has_char, find_first_of, Outcome,
  ok, throws, Error, ◌>>=◌,
}

pub data Quantity : Type 0 where
  intensity emissiontime min_distance first_dmin redshift nbcrosseqplane impactcoords spectrum
        spectrum_stokes_q :
      Quantity
  spectrum_stokes_u spectrum_stokes_v binspectrum user1 user2 user3 user4 user5 : Quantity

-- The position of its bit.
abbrev pub bit : Quantity → ℕ
bit intensity = 0
bit emissiontime = 1
bit min_distance = 2
bit first_dmin = 3
bit redshift = 4
bit nbcrosseqplane = 11
bit impactcoords = 5
bit spectrum = 6
bit spectrum_stokes_q = 7
bit spectrum_stokes_u = 8
bit spectrum_stokes_v = 9
bit binspectrum = 10
bit user1 = 31
bit user2 = 30
bit user3 = 29
bit user4 = 28
bit user5 = 27

-- In the order in which they are written.
abbrev pub all_quantities : List Quantity
all_quantities =
    intensity ∷ emissiontime ∷ min_distance ∷ first_dmin ∷ redshift ∷ nbcrosseqplane ∷ impactcoords
    ∷ spectrum ∷ spectrum_stokes_q ∷ spectrum_stokes_u ∷ spectrum_stokes_v ∷ binspectrum ∷ user1
    ∷ user2 ∷ user3 ∷ user4 ∷ user5 ∷ []

-- An unsigned int, bit by bit.
abbrev pub Word : Type 0
Word = ℕ → Bool

-- w | 1<<k
abbrev pub set_bit : ℕ → Word → Word
set_bit k w j = (j == k) || w j

abbrev pub name : Quantity → Text
name intensity = codes "Intensity"
name emissiontime = codes "EmissionTime"
name min_distance = codes "MinDistance"
name first_dmin = codes "FirstDistMin"
name redshift = codes "Redshift"
name nbcrosseqplane = codes "NbCrossEqPlane"
name impactcoords = codes "ImpactCoords"
name spectrum = codes "Spectrum"
name spectrum_stokes_q = codes "SpectrumStokesQ"
name spectrum_stokes_u = codes "SpectrumStokesU"
name spectrum_stokes_v = codes "SpectrumStokesV"
name binspectrum = codes "BinSpectrum"
name user1 = codes "User1"
name user2 = codes "User2"
name user3 = codes "User3"
name user4 = codes "User4"
name user5 = codes "User5"

abbrev pub stokes_name : Text
stokes_name = codes "SpectrumStokes"

abbrev pub si_unit : Text
si_unit = codes "J.m-2.s-1.sr-1.Hz-1"

abbrev pub si_band_unit : Text
si_band_unit = codes "J.m-2.s-1.sr-1"

-- strtok(text, " \t\n"): the words between blanks
abbrev pub blanks : Text
blanks = 32 ∷ 9 ∷ 10 ∷ []

abbrev pub flush : Text → List Text → List Text
flush [] rest = rest
flush (c ∷ cs) rest = (c ∷ cs) ∷ rest

-- With the word so far.
pub words : Text → Text → List Text
words [] word = flush word []
words (c ∷ text) word = elim (has_char c blanks) [
  | true ↦ flush word (words text [])
  | false ↦ words text (word ++ c ∷ [])
]

-- The quantity and the unit that stands in brackets behind it; find gives npos where there is no "[".
pub quantity_and_unit : Text → Text × Text
quantity_and_unit word = elim (find_first_of word (codes "[") 0) [
  | none ↦ (word, [])
  | some first ↦
      let last = length word - 1 in
      if ltb first last
      then (take first word, take (last - first - 1) (drop (first + 1) word))
      else (word, [])
]

-- Where a unit goes.
pub data Target : Type 0 where
  nowhere intensity_unit spectrum_unit binspectrum_unit : Target

-- What a name stands for, in the order of the tests.
abbrev pub requests : List (Text × List Quantity × Target)
requests =
    (name intensity, intensity ∷ [], intensity_unit)
    ∷ (name emissiontime, emissiontime ∷ [], nowhere)
    ∷ (name min_distance, min_distance ∷ [], nowhere)
    ∷ (name first_dmin, first_dmin ∷ [], nowhere)
    ∷ (name redshift, redshift ∷ [], nowhere)
    ∷ (name nbcrosseqplane, nbcrosseqplane ∷ [], nowhere)
    ∷ (name impactcoords, impactcoords ∷ [], nowhere)
    ∷ (name spectrum_stokes_q, spectrum_stokes_q ∷ [], nowhere)
    ∷ (name spectrum_stokes_u, spectrum_stokes_u ∷ [], nowhere)
    ∷ (name spectrum_stokes_v, spectrum_stokes_v ∷ [], nowhere)
    ∷ (name spectrum, spectrum ∷ [], spectrum_unit)
    ∷ (
      stokes_name,
      spectrum ∷ spectrum_stokes_q ∷ spectrum_stokes_u ∷ spectrum_stokes_v ∷ [],
      spectrum_unit,
    )
    ∷ (name binspectrum, binspectrum ∷ [], binspectrum_unit)
    ∷ (name user1, user1 ∷ [], nowhere)
    ∷ (name user2, user2 ∷ [], nowhere)
    ∷ (name user3, user3 ∷ [], nowhere)
    ∷ (name user4, user4 ∷ [], nowhere)
    ∷ (name user5, user5 ∷ [], nowhere)
    ∷ []

-- The converters are null until they are set. `C` is Units::Converter.
pub record Requested (C : Type 0) : Type 0 where
  pub quantities : Word
  pub intensity_converter : Option C
  pub spectrum_converter : Option C
  pub binspectrum_converter : Option C
  pub parallel_transport : Bool

abbrev pub find_request :
    Text → List (Text × List Quantity × Target) → Outcome (List Quantity × Target)
find_request quant [] = throws Error.unknown_quantity
find_request quant ((n, qs, target) ∷ rest) =
    if same quant n then ok (qs, target) else find_request quant rest

abbrev pub add_all : List Quantity → Word → Word
add_all [] w = w
add_all (q ∷ qs) w = set_bit (bit q) (add_all qs w)

abbrev pub has_stokes : Word → Bool
has_stokes w = w (bit spectrum_stokes_q) || (w (bit spectrum_stokes_u) || w (bit spectrum_stokes_v))

-- parallelTransport(true) where a Stokes parameter is requested
abbrev pub with_transport : {C : Type 0} → Requested C → Requested C
with_transport s = record s {
  parallel_transport = if has_stokes s.quantities then true else s.parallel_transport;
}

-- setRequestedQuantities(quant)
pub set_requested_quantities : {C : Type 0} → Word → Requested C → Requested C
set_requested_quantities quant s = with_transport (record s { quantities = quant })

-- `new_converter from to` is new Units::Converter(from, to).
module _ {C : Type 0} (new_converter : Text → Text → Outcome C) where
  -- if (unit=="") unit=...
  abbrev pub or_unit : Text → Text → Text
  or_unit [] default = default
  or_unit (c ∷ cs) default = c ∷ cs

  -- intensityConverter(unit), spectrumConverter(unit) and binSpectrumConverter(unit)
  pub set_converter : Target → Text → Requested C → Outcome (Requested C)
  set_converter nowhere unit s = ok s
  set_converter intensity_unit unit s = new_converter si_unit (or_unit unit si_unit) >>= λ c.
      ok (record s { intensity_converter = some c })
  set_converter spectrum_unit unit s = new_converter si_unit (or_unit unit si_unit) >>= λ c.
      ok (record s { spectrum_converter = some c })
  set_converter binspectrum_unit unit s =
      new_converter si_band_unit (or_unit unit si_band_unit) >>= λ c.
      ok (record s { binspectrum_converter = some c })

  -- A round of the loop over the words.
  pub request : Text → Requested C → Outcome (Requested C)
  unfolding set_converter quantity_and_unit
  request word s = do
    (qs, target) ← find_request (quantity_and_unit word).0 requests
    set_converter target (quantity_and_unit word).1
        (record s { quantities = add_all qs s.quantities })

  pub request_all : List Text → Requested C → Outcome (Requested C)
  unfolding request
  request_all [] s = ok s
  request_all (word ∷ rest) s = request word s >>= request_all rest

  -- requestedQuantitiesString(squant)
  pub request_string : Text → Requested C → Outcome (Requested C)
  unfolding request_all words
  request_string squant s = do
    s' ← request_all (words squant []) (record s { quantities = λ k. false })
    ok (with_transport s')

-- quantities_ != 0
abbrev pub any_below : ℕ → Word → Bool
any_below zero w = false
any_below (suc n) w = w n || any_below n w

-- getRequestedQuantities(), where `fallback` is that of the object, or 0 without one
abbrev pub effective : Word → Word → Word
effective w fallback = if any_below 32 w then w else fallback

pub selected : List Quantity → Word → List Quantity
selected [] w = []
selected (q ∷ qs) w = let rest = selected qs w in if w (bit q) then q ∷ rest else rest

pub print : List Quantity → Text
print [] = []
print (q ∷ qs) = name q ++ 32 ∷ print qs

-- requestedQuantitiesString() for the quantities of `effective`
pub quantities_string : Word → Text
unfolding selected print
quantities_string w = print (selected all_quantities w)

abbrev pub count : List Quantity → Word → ℕ
count [] w = 0
count (q ∷ qs) w = (if w (bit q) then 1 else 0) + count qs w

-- getScalarQuantitiesCount and getSpectralQuantitiesCount
unfoldable pub scalar_quantities_count : Word → ℕ
scalar_quantities_count = count (
    intensity ∷ emissiontime ∷ min_distance ∷ first_dmin ∷ redshift ∷ nbcrosseqplane ∷ user1 ∷ user2
    ∷ user3 ∷ user4 ∷ user5 ∷ [])

unfoldable pub spectral_quantities_count : Word → ℕ
spectral_quantities_count =
    count (spectrum ∷ spectrum_stokes_q ∷ spectrum_stokes_u ∷ spectrum_stokes_v ∷ binspectrum ∷ [])
