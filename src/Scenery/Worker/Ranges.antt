-- ===== src/Scenery/Worker/Ranges.antt =====
-- Grids of two Screen::Range: these can be read even past their end.
use gyoto.Prelude.{ℕ, ◌≡◌, refl, Bool, ok, arith}
use gyoto.Screen.Coord1d
use gyoto.Screen.Coord1d.{Coord1dSet, range, indices, angles, repeat_angle}
use gyoto.Screen.Coord2d.{Coord2dSet, grid, bucket, empty, advance, deref}
use gyoto.Screen.Coord2d.Walk
use gyoto.Screen.Coord2d.Walk.{IsPixelSets}
use gyoto.Scenery.Worker.{Target, at_pixel, read}
use gyoto.Scenery.Worker.Invariant.{IsWalk}
use gyoto.Scenery.Worker.Pixels.{pixel_setup, pixel_targets, pixels-IsWalk}

abbrev pub IsRange : {F : Type 0} → Coord1dSet F → Type 0
IsRange (range mi ma d sz cur) = Unit {0}
IsRange (indices buf sz i) = ⊥
IsRange (angles buf sz i) = ⊥
IsRange (repeat_angle val sz i) = ⊥

abbrev pub AreRanges : {F : Type 0} → Coord2dSet F → Type 0
AreRanges (grid iset jset) = IsRange iset × IsRange jset
AreRanges (bucket alpha delta) = ⊥
AreRanges empty = ⊥

advance-AreRanges : {F : Type 0} (s : Coord2dSet F) → AreRanges s → AreRanges (advance s)
unfolding advance Coord1d.advance Coord1d.begin Coord1d.valid
advance-AreRanges (grid (range mi ma d sz cur) (range mj mb e tz cvr)) r = ground arith
advance-AreRanges (grid (range mi ma d sz cur) (indices buf tz i)) r = absurd r.1
advance-AreRanges (grid (range mi ma d sz cur) (angles buf tz i)) r = absurd r.1
advance-AreRanges (grid (range mi ma d sz cur) (repeat_angle val tz i)) r = absurd r.1
advance-AreRanges (grid _ jset) r = absurd r.0
advance-AreRanges (bucket alpha delta) r = absurd r
advance-AreRanges empty r = absurd r

pub read-AreRanges :
    {F : Type 0} (npix : ℕ) (alloc : Bool) (s : Coord2dSet F)
    → IsPixelSets s × AreRanges s
    → (x : Target F) × (read (pixel_setup npix alloc) s ≡ ok x)
unfolding read deref Coord1d.deref
read-AreRanges npix alloc (grid (range mi ma d sz cur) (range mj mb e tz cvr)) r =
    (at_pixel cur cvr, refl)
read-AreRanges npix alloc (grid (range mi ma d sz cur) (indices buf tz i)) r = absurd r.1.1
read-AreRanges npix alloc (grid (range mi ma d sz cur) (angles buf tz i)) r = absurd r.1.1
read-AreRanges npix alloc (grid (range mi ma d sz cur) (repeat_angle val tz i)) r = absurd r.1.1
read-AreRanges npix alloc (grid _ jset) r = absurd r.1.0
read-AreRanges npix alloc (bucket alpha delta) r = absurd r.1
read-AreRanges npix alloc empty r = absurd r.1

pub ranges-IsWalk :
    {F : Type 0} (npix : ℕ) (alloc : Bool)
    → IsWalk {F = F}
        (pixel_setup npix alloc)
        (λ s. pixel_targets (Walk.rest s))
        (λ s. IsPixelSets s × AreRanges s)
ranges-IsWalk npix alloc = record {
  more = λ s (p, r) v.
      let (x, rd, rs, p') = (pixels-IsWalk npix alloc).more s p v in
      (x, rd, rs, (p', advance-AreRanges s r));
  over = λ s (p, r) v. (pixels-IsWalk npix alloc).over s p v;
}
