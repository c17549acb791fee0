-- ===== src/Scenery/Mpi.antt =====
-- The message in which an MPI worker of Scenery::rayTrace, in lib/Scenery.C, sends a pixel: an array
-- `vect` of doubles, in which the quantities of `locdata` are laid out.
pub mod Layout
pub mod Manager
pub mod Triage
mod Tests
use gyoto.Prelude.{
  ℕ, ◌+◌, ◌*◌, Bool, true, false, ◌&&◌, ◌==◌, if◌then◌else◌, Option, none, some, List, [], ◌∷◌,
}
use gyoto.Scenery.Quantities.{
  Quantity, intensity, emissiontime, min_distance, first_dmin, redshift, nbcrosseqplane,
  impactcoords, spectrum, spectrum_stokes_q, spectrum_stokes_u, spectrum_stokes_v, binspectrum,
  user1, user2, user3, user4, user5, bit, Word, scalar_quantities_count, spectral_quantities_count,
}
use gyoto.Astrobj.Properties.{Properties, shape, stride}

-- double * vect = new double[nelt]
pub message_size : ℕ → Word → ℕ
message_size n w =
    scalar_quantities_count w
    + n * spectral_quantities_count w
    + (if w (bit impactcoords) then 16 else 0)

-- The order of the assignments to locdata.
abbrev pub layout_order : List Quantity
layout_order =
    intensity ∷ emissiontime ∷ min_distance ∷ first_dmin ∷ redshift ∷ nbcrosseqplane ∷ impactcoords
    ∷ user1 ∷ user2 ∷ user3 ∷ user4 ∷ user5 ∷ spectrum ∷ spectrum_stokes_q ∷ spectrum_stokes_u
    ∷ spectrum_stokes_v ∷ binspectrum ∷ []

-- The pointers, from curquant on; a spectrum moves it by one only, as vect+offset*(curquant++) does.
pub pointer_in : List Quantity → Word → ℕ → Quantity → Option ℕ
pointer_in [] w curquant q = none
pointer_in (p ∷ ps) w curquant q =
    let rest = pointer_in ps w (if w (bit p) then curquant + stride (shape p) else curquant) q in
    if (bit p == bit q) && w (bit p) then some curquant else rest

-- locdata, for the quantities `w`
unfoldable pub locdata : Word → Properties
unfolding pointer_in
locdata w = record {
  pointer = pointer_in layout_order w 0;
  offset = 1;
  first_dmin_found = false;
  alloc = false;
}
