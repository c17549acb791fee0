-- ===== src/Scenery/Quantities/Tests.antt =====
-- Texts of quantities with units as numbers.
use gyoto.Prelude.{
  ℕ, ◌≡◌, refl, true, false, ◌||◌, ◌==◌, if◌then◌else◌, none, [], ◌∷◌, length, Text, codes, Outcome,
  ok,
}
use gyoto.Scenery.Quantities.{
  Quantity, intensity, spectrum_stokes_u, bit, Word, Requested, words, quantity_and_unit,
  request_string, quantities_string, has_stokes,
}
use gyoto.Scenery.Quantities.RoundTrip.{print-request_string, Converts}

abbrev lengths : Text → Text → Outcome ℕ
lengths from to = ok (length to)

lengths-Converts : Converts lengths
lengths-Converts = ((19, refl), (14, refl))

-- Intensity and the Stokes parameter U.
abbrev some_bits : Word
some_bits k = (k == bit intensity) || (k == bit spectrum_stokes_u)

abbrev fresh : Requested ℕ
fresh = record {
  quantities = λ k. false;
  intensity_converter = none;
  spectrum_converter = none;
  binspectrum_converter = none;
  parallel_transport = false;
}

blanks_are_skipped :
    words (codes " User1  Spectrum[mJy] ") [] ≡ codes "User1" ∷ codes "Spectrum[mJy]" ∷ []
unfolding words
blanks_are_skipped = refl

a_unit : quantity_and_unit (codes "Spectrum[mJy]") ≡ (codes "Spectrum", codes "mJy")
unfolding quantity_and_unit
a_unit = refl

no_unit : quantity_and_unit (codes "Redshift") ≡ (codes "Redshift", [])
unfolding quantity_and_unit
no_unit = refl

printed : quantities_string some_bits ≡ codes "Intensity SpectrumStokesU "
unfolding quantities_string
printed = refl

print-request_string_example :
    (s' : Requested ℕ) × (request_string lengths (quantities_string some_bits) fresh ≡ ok s')
    × ((q : Quantity) → s'.quantities (bit q) ≡ some_bits (bit q))
    × (s'.parallel_transport ≡ (if has_stokes some_bits then true else fresh.parallel_transport))
print-request_string_example = print-request_string lengths some_bits fresh lengths-Converts
