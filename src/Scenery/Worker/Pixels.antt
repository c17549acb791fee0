-- ===== src/Scenery/Worker/Pixels.antt =====
-- Grids and buckets of pixels, as the workers see them.
use gyoto.Prelude.{
  ℕ, zero, suc, ◌≡◌, refl, ap, Bool, true, List, [], ◌∷◌, get_elem?, length, arith, some,
}
use gyoto.Screen.Coord2d.Walk
use gyoto.Screen.Coord2d.Walk.{IsPixelSets}
use gyoto.Scenery.Worker.{Target, at_pixel, Setup, read}
use gyoto.Scenery.Worker.Invariant.{IsWalk}

-- A call whose targets are pixels.
abbrev pub pixel_setup : ℕ → Bool → Setup
pixel_setup npix alloc = record { is_pixel = true; npix = npix; alloc = alloc }

abbrev pub pixel_targets : {F : Type 0} → List (ℕ × ℕ) → List (Target F)
pixel_targets [] = []
pixel_targets ((i, j) ∷ ps) = at_pixel i j ∷ pixel_targets ps

pub get_elem?-pixel_targets :
    {F : Type 0} (ps : List (ℕ × ℕ)) (m : ℕ) {x : Target F}
    → get_elem? (pixel_targets ps) m ≡ some x
    → (i : ℕ) × (j : ℕ) × (get_elem? ps m ≡ some (i, j)) × (x ≡ at_pixel i j)
get_elem?-pixel_targets [] m e = cc
get_elem?-pixel_targets ((i, j) ∷ ps) zero e = (i, j, refl, cc)
get_elem?-pixel_targets ((i, j) ∷ ps) (suc m) e = get_elem?-pixel_targets ps m e

pub pixel_targets-get_elem? :
    {F : Type 0} (ps : List (ℕ × ℕ)) (m : ℕ) {i j : ℕ}
    → get_elem? ps m ≡ some (i, j)
    → get_elem? (pixel_targets {F = F} ps) m ≡ some (at_pixel i j)
pixel_targets-get_elem? [] m e = cc
pixel_targets-get_elem? ((i, j) ∷ ps) zero e = ground (arith, e)
pixel_targets-get_elem? ((i, j) ∷ ps) (suc m) e = pixel_targets-get_elem? ps m e

pub length-pixel_targets :
    (F : Type 0) (ps : List (ℕ × ℕ)) → length (pixel_targets {F = F} ps) ≡ length ps
length-pixel_targets F [] = refl
length-pixel_targets F ((i, j) ∷ ps) = ap suc (length-pixel_targets F ps)

pub pixels-IsWalk :
    {F : Type 0} (npix : ℕ) (alloc : Bool)
    → IsWalk {F = F} (pixel_setup npix alloc) (λ s. pixel_targets (Walk.rest s)) IsPixelSets
unfolding read
pixels-IsWalk npix alloc = record {
  more = λ s fits v.
      let ((i, j), d, r, fits') = Walk.rest-valid s fits v in (at_pixel i j, rw d, rw r, fits');
  over = λ s fits v. ap pixel_targets (Walk.rest-not_valid s fits v);
}
