-- ===== src/Astrobj/Properties/Tests.antt =====
-- Four pixels, with the intensity and a spectrum of two samples.
use gyoto.Prelude.{ℕ, ◌≢◌, inl, inr, refl, Option, none, some, false, arith}
use gyoto.Scenery.Quantities.{Quantity, intensity, spectrum}
use gyoto.Astrobj.Properties.{Properties, advance}
use gyoto.Astrobj.Properties.Cells.{IsApart, cells_apart}

abbrev pointers : Quantity → Option ℕ
pointers intensity = some 0
pointers spectrum = some 4
pointers q = none

abbrev properties : Properties
properties = record { pointer = pointers; offset = 4; first_dmin_found = false; alloc = false }

pointers-IsApart : IsApart 2 4 properties
pointers-IsApart intensity intensity a a' ne e e' = absurd (ne refl)
pointers-IsApart intensity spectrum a a' ne e e' = inl (ground (arith, e, e'))
pointers-IsApart spectrum intensity a a' ne e e' = inr (ground (arith, e, e'))
pointers-IsApart spectrum spectrum a a' ne e e' = absurd (ne refl)
pointers-IsApart intensity q' a a' ne e e' = cc
pointers-IsApart spectrum q' a a' ne e e' = cc
pointers-IsApart q q' a a' ne e e' = cc

-- The second samples of pixels 1 and 2.
cells_apart_example : ◌≢◌ {A = ℕ} 9 10
unfolding advance
cells_apart_example =
    cells_apart 2 4 1 2 properties spectrum spectrum 1 1 9 10 pointers-IsApart refl (omega arith)
      (omega arith) (inl (λ e. omega arith)) refl refl
