-- ===== src/Scenery/Mpi/Tests.antt =====
-- A message with two spectra.
use gyoto.Prelude.{ℕ, ◌≡◌, ◌<◌, refl, inr, ◌||◌, ◌==◌, some, get_elem?, arith}
use gyoto.Scenery.Quantities.{intensity, spectrum, spectrum_stokes_q, bit, Word}
use gyoto.Astrobj.Properties.{touched}
use gyoto.Scenery.Mpi.{message_size, locdata}
use gyoto.Scenery.Mpi.Layout.{locdata-lt, two_spectra_overlap}

abbrev asked : Word
asked k = (k == bit intensity) || ((k == bit spectrum) || (k == bit spectrum_stokes_q))

locdata-lt_example : 1 < message_size 3 asked
unfolding locdata
locdata-lt_example = locdata-lt 3 asked spectrum 0 1 (inr (omega arith)) refl

two_spectra_overlap_example :
    (x : ℕ) × (get_elem? (touched 3 (locdata asked) spectrum) 1 ≡ some x)
    × (get_elem? (touched 3 (locdata asked) spectrum_stokes_q) 0 ≡ some x)
two_spectra_overlap_example = two_spectra_overlap 3 asked (omega arith) refl refl
