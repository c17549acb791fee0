-- ===== src/Worldline.antt =====
-- The storage of Gyoto::Worldline, in lib/Worldline.C: parallel arrays of `x_size_` doubles, of which
-- the cells from `imin_` to `imax_` are in use. `F` is the type `double`; a cell that was allocated and
-- not written holds `none`. Allocation does not fail, and sizes do not wrap.
pub mod Expand
pub mod Fill
pub mod Locate
use gyoto.Prelude.{
  ℕ, zero, suc, ◌+◌, ◌-◌, ◌*◌, ◌≡◌, Bool, true, false, ◌&&◌, ◌||◌, not, leb, ltb, ◌==◌,
  if◌then◌else◌, Option, none, some, Outcome, ok, undefined,
}

-- The arrays, by name.
pub data Slot : Type 0 where
  tau x0 x1 x2 x3 x0dot x1dot x2dot x3dot : Slot
  ep0 ep1 ep2 ep3 et0 et1 et2 et3 : Slot

-- The arrays of the polarisation vectors exist only under parallel transport.
abbrev pub polar : Slot → Bool
polar ep0 = true
polar ep1 = true
polar ep2 = true
polar ep3 = true
polar et0 = true
polar et1 = true
polar et2 = true
polar et3 = true
polar s = false

pub record Worldline (F : Type 0) : Type 0 where
  pub x_size : ℕ
  pub imin : ℕ
  pub i0 : ℕ
  pub imax : ℕ
  pub parallel_transport : Bool
  pub cells : Slot → ℕ → Option F

-- The sense of an integration: `dir` is 1 or -1.
pub data Direction : Type 0 where
  forward backward : Direction

-- A date with position, velocity and polarisation vectors: `state_t` with its proper time.
abbrev pub Sample : Type 0 → Type 0
Sample F = Slot → F

module _ {F : Type 0} where
  abbrev pub allocated : Worldline F → Slot → Bool
  allocated w s = w.parallel_transport || not (polar s)

  -- The constructor, with arrays of `sz` cells and none in use.
  pub new_worldline : ℕ → Bool → Worldline F
  new_worldline sz parallel = record {
    x_size = sz;
    imin = 1;
    i0 = 0;
    imax = 0;
    parallel_transport = parallel;
    cells = λ s k. none;
  }

  -- for (i=imin_;i<=imax_;++i) x[i+offset]=old[i];
  abbrev pub copy : ℕ → ℕ → ℕ → (ℕ → Option F) → (ℕ → Option F) → ℕ → Option F
  copy zero i offset old x = x
  copy (suc rounds) i offset old x =
      copy rounds (i + 1) offset old (λ k. if k == i + offset then old i else x k)

  -- xExpand(double * &x, int dir)
  pub expand_array : Worldline F → Direction → (ℕ → Option F) → ℕ → Option F
  expand_array w forward old = copy (w.imax + 1 - w.imin) w.imin 0 old (λ k. none)
  expand_array w backward old = copy (w.imax + 1 - w.imin) w.imin w.x_size old (λ k. none)

  abbrev pub offset : Worldline F → Direction → ℕ
  offset w forward = 0
  offset w backward = w.x_size

  -- xExpand(int dir): the new worldline and the index that stands for the old end.
  pub expand : Worldline F → Direction → Worldline F × ℕ
  unfolding expand_array
  expand w dir = (
    record w {
      x_size = w.x_size * 2;
      imin = w.imin + offset w dir;
      i0 = w.i0 + offset w dir;
      imax = w.imax + offset w dir;
      cells = λ s. expand_array w dir (w.cells s);
    },
    elim dir [ forward ↦ w.x_size - 1 | backward ↦ w.x_size ],
  )

  -- xStore: a write past the end of the arrays is undefined.
  pub store : Worldline F → ℕ → Sample F → Outcome (Worldline F)
  store w ind coord =
      if ltb ind w.x_size
      then ok (record w {
        cells = λ s k. if (k == ind) && allocated w s then some (coord s) else w.cells s k;
      })
      else undefined

  -- reset
  pub reset : Worldline F → Worldline F
  reset w = if leb w.imin w.imax then record w { imin = w.i0; imax = w.i0 } else w
