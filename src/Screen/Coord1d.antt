-- ===== src/Screen/Coord1d.antt =====
-- Screen::Coord1dSet and its subclasses Range, Indices, Angles and RepeatAngle, in lib/Screen.C.
-- A `size_t` has 64 bits. `F` is the type `double`.
pub mod Walk
use gyoto.Prelude.{
  ℕ, ◌+◌, ◌-◌, ◌/◌, ◌%◌, ◌^◌, Bool, ltb, leb, ◌==◌, if◌then◌else◌, Option, none, some, List,
  get_elem?, Outcome, ok, throws, undefined, or_undefined, Error,
}

abbrev pub size_t_mod : ℕ
size_t_mod = 2 ^ 64

-- enum CoordType_e
pub data CoordType : Type 0 where
  angle_kind pixel_kind : CoordType

-- The fields of each class, in the order of its declaration. A copied buffer is `none` where the
-- constructor was given a null pointer.
pub data Coord1dSet (F : Type 0) : Type 0 where
  range : (mi ma d sz cur : ℕ) → Coord1dSet F
  indices : (buf : Option (List ℕ)) (sz i : ℕ) → Coord1dSet F
  angles : (buf : Option (List F)) (sz i : ℕ) → Coord1dSet F
  repeat_angle : (val : F) (sz i : ℕ) → Coord1dSet F

abbrev pub read {ℓ} : {A : Type ℓ} → Option (List A) → ℕ → Outcome A
read none i = undefined
read (some xs) i = or_undefined (get_elem? xs i)

module _ {F : Type 0} where
  unfoldable pub kind : Coord1dSet F → CoordType
  kind (range mi ma d sz cur) = pixel_kind
  kind (indices buf sz i) = pixel_kind
  kind (angles buf sz i) = angle_kind
  kind (repeat_angle val sz i) = angle_kind

  -- A division by a step of 0 is undefined.
  unfoldable pub new_range : (mi ma d : ℕ) → Outcome (Coord1dSet F)
  new_range mi ma d =
      if d == 0
      then undefined
      else ok (range mi ma d (((ma + size_t_mod - mi) % size_t_mod / d + 1) % size_t_mod) mi)

  pub new_indices : Option (List ℕ) → ℕ → Coord1dSet F
  new_indices buf sz = indices buf sz 0

  unfoldable pub begin : Coord1dSet F → Coord1dSet F
  begin (range mi ma d sz cur) = range mi ma d sz mi
  begin (indices buf sz i) = indices buf sz 0
  begin (angles buf sz i) = angles buf sz 0
  begin (repeat_angle val sz i) = repeat_angle val sz 0

  -- operator++
  unfoldable pub advance : Coord1dSet F → Coord1dSet F
  advance (range mi ma d sz cur) = range mi ma d sz ((cur + d) % size_t_mod)
  advance (indices buf sz i) = indices buf sz ((i + 1) % size_t_mod)
  advance (angles buf sz i) = angles buf sz ((i + 1) % size_t_mod)
  advance (repeat_angle val sz i) = repeat_angle val sz ((i + 1) % size_t_mod)

  unfoldable pub valid : Coord1dSet F → Bool
  valid (range mi ma d sz cur) = leb cur ma
  valid (indices buf sz i) = ltb i sz
  valid (angles buf sz i) = ltb i sz
  valid (repeat_angle val sz i) = ltb i sz

  unfoldable pub size : Coord1dSet F → ℕ
  size (range mi ma d sz cur) = sz
  size (indices buf sz i) = sz
  size (angles buf sz i) = sz
  size (repeat_angle val sz i) = sz

  -- operator*: the classes of kind angle inherit that of Coord1dSet.
  unfoldable pub deref : Coord1dSet F → Outcome ℕ
  deref (range mi ma d sz cur) = ok cur
  deref (indices buf sz i) = read buf i
  deref (angles buf sz i) = throws Error.angle_set_dereferenced
  deref (repeat_angle val sz i) = throws Error.angle_set_dereferenced

  -- angle(): the classes of kind pixel inherit that of Coord1dSet.
  unfoldable pub angle : Coord1dSet F → Outcome F
  angle (range mi ma d sz cur) = throws Error.pixel_set_asked_angle
  angle (indices buf sz i) = throws Error.pixel_set_asked_angle
  angle (angles buf sz i) = read buf i
  angle (repeat_angle val sz i) = ok val

  pub index : Coord1dSet F → ℕ
  index (range mi ma d sz cur) = (cur + size_t_mod - mi) % size_t_mod / d
  index (indices buf sz i) = i
  index (angles buf sz i) = i
  index (repeat_angle val sz i) = i
