-- ===== src/Scenery/Worker/Frame.antt =====
-- Cells of a whole screen: pixel (i, j) of a screen of `npix` columns has cell (j - 1) npix + i - 1.
use native.Mathlib.Nat.{le_trans, mul-le-mul_left, mul-le-mul_right}
use gyoto.Prelude.{
  ℕ, zero, suc, inl, inr, ◌⊎◌, ◌+◌, ◌-◌, ◌*◌, ◌%◌, ◌<◌, ◌≤◌, ◌≡◌, refl, sym, ap, ◌∙◌, Bool, true,
  List, get_elem?, length, arith, ok, some,
}
use gyoto.Screen.Coord1d.{size_t_mod}
use gyoto.Screen.Coord2d.{Coord2dSet}
use gyoto.Screen.Coord2d.Walk
use gyoto.Screen.Coord2d.Walk.{IsPixelSets}
use gyoto.Scenery.Worker.{Target, at_pixel, System, cell_of, run, start}
use gyoto.Scenery.Worker.Invariant.{NoConflict}
use gyoto.Scenery.Worker.Complete.{AllStopped, render_complete}
use gyoto.Scenery.Worker.Pixels.{
  pixel_setup, pixel_targets, pixels-IsWalk, get_elem?-pixel_targets, pixel_targets-get_elem?,
  length-pixel_targets,
}

-- Pixel numbers start at 1, and the cells of the screen can be counted by a size_t.
abbrev pub OnScreen : ℕ → ℕ → ℕ → Type 0
OnScreen npix i j = (1 ≤ i) × (i ≤ npix) × (1 ≤ j) × (j * npix < size_t_mod)

lt_trichotomy : (a b : ℕ) → (a < b) ⊎ ((a ≡ b) ⊎ (b < a))
lt_trichotomy a b = grind arith

row_end : (npix j : ℕ) → 1 ≤ j → (j - 1) * npix + npix ≡ j * npix
row_end npix zero pos = absurd (omega arith)
row_end npix (suc j) pos = grind arith

cell_of-OnScreen :
    (F : Type 0) (npix m i j : ℕ)
    → OnScreen npix i j
    → cell_of {F = F} (pixel_setup npix true) m (at_pixel i j) ≡ (j - 1) * npix + (i - 1)
unfolding cell_of
cell_of-OnScreen F npix m i j (i_pos, i_le, j_pos, fits) =
    let j_le : j * 1 ≤ j * npix = mul-le-mul_left j (le_trans i_pos i_le) in
    let previous : (j + size_t_mod - 1) % size_t_mod ≡ j - 1 = omega arith in
    rw previous (omega (arith, row_end npix j j_pos))

row_before : (npix j j' : ℕ) → 1 ≤ j → j < j' → (j - 1) * npix + npix ≤ (j' - 1) * npix
row_before npix j j' pos lt =
    let up : j ≤ j' - 1 = omega arith in rw (row_end npix j pos) (mul-le-mul_right npix up)

cells_apart :
    (npix i j i' j' : ℕ)
    → OnScreen npix i j
    → OnScreen npix i' j'
    → (j - 1) * npix + (i - 1) ≡ (j' - 1) * npix + (i' - 1)
    → (i ≡ i') × (j ≡ j')
cells_apart npix i j i' j' (i_pos, i_le, j_pos, _) (i_pos', i_le', j_pos', _) e =
    elim (lt_trichotomy j j') [
      | inl lt ↦ absurd (omega (arith, row_before npix j j' j_pos lt))
      | inr (inl same) ↦
          let products : (j - 1) * npix ≡ (j' - 1) * npix = ap (λ k. (k - 1) * npix) same in
          (omega arith, same)
      | inr (inr gt) ↦ absurd (omega (arith, row_before npix j' j j_pos' gt))
    ]

-- Every pixel of the list lies on the screen.
abbrev pub AllOnScreen : ℕ → List (ℕ × ℕ) → Type 0
AllOnScreen npix ps = (m i j : ℕ) → get_elem? ps m ≡ some (i, j) → OnScreen npix i j

pub pixels_apart :
    {F V : Type 0} (npix : ℕ) (trace : Target F → V) (ps : List (ℕ × ℕ))
    → AllOnScreen npix ps
    → NoConflict (pixel_setup npix true) trace (pixel_targets ps)
pixels_apart {F} npix trace ps on m n x y gx gy e =
    let (i, j, gp, x_eq) = get_elem?-pixel_targets ps m gx in
    let (i', j', gq, y_eq) = get_elem?-pixel_targets ps n gy in
    let cx = cell_of-OnScreen F npix m i j (on m i j gp) in
    let cy = cell_of-OnScreen F npix n i' j' (on n i' j' gq) in
    let e' : cell_of {F = F} (pixel_setup npix true) m (at_pixel i j)
        ≡ cell_of (pixel_setup npix true) n (at_pixel i' j') =
      rw (x_eq, y_eq) at e in
    let (same_i, same_j) =
      cells_apart npix i j i' j' (on m i j gp) (on n i' j' gq) (sym cx ∙ e' ∙ cy) in
    rw (x_eq, y_eq, same_i, same_j) refl

-- With data for a whole screen of `npix` columns, a finished ray-tracing call over any set of pixels
-- on the screen, fewer than 2 ^ 64 of them, has written the result for pixel (i, j) at index (j - 1) npix + i - 1, for every pixel
-- of the set, and nothing at an index that is not that of a pixel of the set.
pub frame_complete :
    {F V : Type 0} (npix : ℕ) (trace : Target F → V) (ij : Coord2dSet F) (nthreads : ℕ)
    (thread_safe : Bool) (ts : List ℕ) (s : System F V)
    → IsPixelSets ij
    → length (Walk.rest ij) < size_t_mod
    → AllOnScreen npix (Walk.rest ij)
    → run (pixel_setup npix true) trace (start ij nthreads thread_safe) ts ≡ ok s
    → AllStopped s
    → ((m i j : ℕ)
        → get_elem? (Walk.rest ij) m ≡ some (i, j)
        → s.image ((j - 1) * npix + (i - 1)) ≡ some (trace (at_pixel i j)))
      × ((c : ℕ) (v : V)
          → s.image c ≡ some v
          → (m : ℕ) × (i : ℕ) × (j : ℕ) × (get_elem? (Walk.rest ij) m ≡ some (i, j))
            × (c ≡ (j - 1) * npix + (i - 1)))
frame_complete {F} npix trace ij nthreads thread_safe ts s fits small on h stop =
    let ps = Walk.rest ij in
    let small' : length (pixel_targets {F = F} ps) < size_t_mod = rw length-pixel_targets small in
    let (written, only) =
      render_complete (pixel_setup npix true) trace (pixels-IsWalk npix true) (pixel_targets ps)
        small' (pixels_apart npix trace ps on) ij nthreads thread_safe ts s fits refl h stop in
    (
      λ m i j g.
          rw (← cell_of-OnScreen F npix m i j (on m i j g))
            (written m (at_pixel i j) (pixel_targets-get_elem? ps m g)),
      λ c v e.
          let (m, x, g, c_eq, _) = only c v e in
          let (i, j, g', x_eq) = get_elem?-pixel_targets ps m g in
          (
            m,
            i,
            j,
            g',
            c_eq
                ∙ ap (cell_of (pixel_setup npix true) m) x_eq
                ∙ cell_of-OnScreen F npix m i j (on m i j g'),
          ),
    )
