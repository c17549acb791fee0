-- ===== src/Spectrometer.antt =====
-- Gyoto::Spectrometer::Generic, in lib/Spectrometer.C: the description of spectral channels that a
-- Screen shares with its Scenery. `F` is the type `double`.
pub mod Uniform
pub mod Complex
use gyoto.Prelude.{ℕ, ◌*◌, ◌<◌, ◌≡◌, Option, some, List, length, get_elem?, map}

-- The arrays are lists: `boundaries` has `nboundaries` cells, `widths` and `midpoints` have `nsamples`
-- and `chanind` twice as many, where the spectrometer is sound. A null pointer is the empty list.
pub record Generic (F : Type 0) : Type 0 where
  pub nsamples : ℕ
  pub nboundaries : ℕ
  pub boundaries : List F
  pub chanind : List ℕ
  pub midpoints : List F
  pub widths : List F

module _ {F : Type 0} where
  pub record IsSound (g : Generic F) : Type 0 where
    pub all_boundaries : length g.boundaries ≡ g.nboundaries
    pub all_widths : length g.widths ≡ g.nsamples
    pub all_midpoints : length g.midpoints ≡ g.nsamples
    pub all_channels : length g.chanind ≡ g.nsamples * 2
    pub in_bounds : (k c : ℕ) → get_elem? g.chanind k ≡ some c → c < g.nboundaries

  -- The ends of the channels, read through `chanind`.
  abbrev pub ends : Generic F → List (Option F)
  ends g = map (get_elem? g.boundaries) g.chanind
