-- ===== src/Screen/Coord2d.antt =====
-- Screen::Coord2dSet and its subclasses Grid, Bucket and Empty, in lib/Screen.C. The two sets that
-- a Grid or a Bucket refers to are distinct objects, held here by value.
pub mod Walk
pub mod Order
mod Tests
use gyoto.Prelude.{
  ℕ, ◌+◌, ◌*◌, ◌%◌, Bool, true, false, ◌&&◌, not, ◌==◌, if◌then◌else◌, Outcome, ok, throws,
  undefined, Error, ◌>>=◌, ◌>>◌, require,
}
use gyoto.Screen.Coord1d
use gyoto.Screen.Coord1d.{Coord1dSet, CoordType, angle_kind, pixel_kind, size_t_mod}

pub data Coord2dSet (F : Type 0) : Type 0 where
  grid : (iset jset : Coord1dSet F) → Coord2dSet F
  bucket : (alpha delta : Coord1dSet F) → Coord2dSet F
  empty : Coord2dSet F

abbrev pub same_kind : CoordType → CoordType → Bool
same_kind angle_kind angle_kind = true
same_kind pixel_kind pixel_kind = true
same_kind _ _ = false

-- What the base class does where a subclass does not define operator* or angles().
abbrev no_deref {ℓ} : {A : Type ℓ} → CoordType → Outcome A
no_deref pixel_kind = throws Error.pixel_set_lacks_deref
no_deref angle_kind = throws Error.angle_set_dereferenced

abbrev no_angles {ℓ} : {A : Type ℓ} → CoordType → Outcome A
no_angles angle_kind = throws Error.angle_set_lacks_angle
no_angles pixel_kind = throws Error.pixel_set_asked_angle

module _ {F : Type 0} where
  pub kind : Coord2dSet F → CoordType
  kind (grid iset jset) = pixel_kind
  kind (bucket alpha delta) = Coord1d.kind alpha
  kind empty = pixel_kind

  -- The constructor of Bucket.
  pub new_bucket : Coord1dSet F → Coord1dSet F → Outcome (Coord2dSet F)
  new_bucket alp del = do
    require (same_kind (Coord1d.kind alp) (Coord1d.kind del)) Error.kinds_differ
    require (Coord1d.size alp == Coord1d.size del) Error.sizes_differ
    ok (bucket alp del)

  unfoldable pub begin : Coord2dSet F → Coord2dSet F
  begin (grid iset jset) = grid (Coord1d.begin iset) (Coord1d.begin jset)
  begin (bucket alpha delta) = bucket (Coord1d.begin alpha) (Coord1d.begin delta)
  begin empty = empty

  unfoldable pub valid : Coord2dSet F → Bool
  valid (grid iset jset) = Coord1d.valid iset && Coord1d.valid jset
  valid (bucket alpha delta) = Coord1d.valid alpha && Coord1d.valid delta
  valid empty = false

  pub size : Coord2dSet F → ℕ
  size (grid iset jset) = Coord1d.size iset * Coord1d.size jset % size_t_mod
  size (bucket alpha delta) = Coord1d.size alpha
  size empty = 0

  -- The end of a row starts the next one. The progress report on the terminal is left out.
  next_row : Coord1dSet F → Coord1dSet F → Coord2dSet F
  next_row iset jset =
      if Coord1d.valid iset
      then grid iset jset
      else grid (Coord1d.begin iset) (Coord1d.advance jset)

  -- operator++
  unfoldable pub advance : Coord2dSet F → Coord2dSet F
  unfolding next_row
  advance (grid iset jset) =
      if Coord1d.valid iset && Coord1d.valid jset
      then next_row (Coord1d.advance iset) jset
      else grid iset jset
  advance (bucket alpha delta) = bucket (Coord1d.advance alpha) (Coord1d.advance delta)
  advance empty = empty

  -- operator*
  unfoldable pub deref : Coord2dSet F → Outcome (ℕ × ℕ)
  deref (grid iset jset) = do i ← Coord1d.deref iset; j ← Coord1d.deref jset; ok (i, j)
  deref (bucket alpha delta) = do i ← Coord1d.deref alpha; j ← Coord1d.deref delta; ok (i, j)
  deref empty = no_deref pixel_kind

  unfoldable pub angles : Coord2dSet F → Outcome (F × F)
  angles (grid iset jset) = no_angles pixel_kind
  angles (bucket alpha delta) = do a ← Coord1d.angle alpha; d ← Coord1d.angle delta; ok (a, d)
  angles empty = no_angles pixel_kind
