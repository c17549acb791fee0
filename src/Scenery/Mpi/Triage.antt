-- ===== src/Scenery/Mpi/Triage.antt =====
-- The copying of a result in the manager of Scenery::rayTrace, lib/Scenery.C. A result is the values of each
-- quantity. The Stokes parameters are not copied, and where several spectra are requested they overlap in
-- the message: what then stands there is the parameter `mixed`.
use gyoto.Prelude.{◌≡◌, ◌≤◌, refl, Bool, true, false, ◌&&◌, ltb, if◌then◌else◌, List, [], arith}
use gyoto.Scenery.Quantities.{
  Quantity, spectrum_stokes_q, spectrum_stokes_u, spectrum_stokes_v, Word,
  spectral_quantities_count,
}
use gyoto.Astrobj.Properties.{Shape, spectral, shape}

abbrev pub Result : Type 0 → Type 0
Result F = Quantity → List F

-- if (data->intensity), if (data->time) and so on
abbrev pub is_copied : Quantity → Bool
is_copied spectrum_stokes_q = false
is_copied spectrum_stokes_u = false
is_copied spectrum_stokes_v = false
is_copied q = true

abbrev pub is_spectral : Shape → Bool
is_spectral spectral = true
is_spectral other = false

module _ {F : Type 0} (mixed : Result F → Result F) (w : Word) where
  -- What stands in the message at the place of a quantity.
  pub in_message : Result F → Result F
  in_message v q =
      if is_spectral (shape q) && ltb 1 (spectral_quantities_count w) then mixed v q else v q

  -- What the manager has in its data after the copy.
  pub delivered : Result F → Result F
  unfolding in_message
  delivered v q = if is_copied q then in_message v q else []

  -- With one spectrum at most, a quantity that is copied arrives as it was.
  pub delivered_lem :
      (v : Result F) (q : Quantity)
      → spectral_quantities_count w ≤ 1
      → is_copied q ≡ true
      → delivered v q ≡ v q
  unfolding delivered in_message
  delivered_lem v q one_spectrum copied =
      let alone : ltb 1 (spectral_quantities_count w) ≡ false = ground arith in
      rw (delivered, in_message, copied)
        (mixed_never (is_spectral (shape q)) _ (mixed v q) (v q) alone)
    where
      mixed_never : (a b : Bool) (x y : List F) → b ≡ false → (if a && b then x else y) ≡ y
      mixed_never true b x y e = rw e refl
      mixed_never false b x y e = refl
