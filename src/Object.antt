-- ===== src/Object.antt =====
-- Gyoto::Object and Gyoto::Property, in lib/Object.C, lib/Property.C and include/GyotoProperty.h: what
-- can be set and read by name. `S` is the state that the accessors of a class work on, the object
-- included; the accessors are arbitrary.
mod Tests
pub mod Lookup
pub mod Access
pub mod Parameters
use gyoto.Prelude.{
  ◌%◌, ◌^◌, starts_with, drop, ℕ, zero, suc, ◌+◌, Bool, true, false, ◌&&◌, ◌||◌, not, if◌then◌else◌,
  Option, none, some, List, [], ◌∷◌, ◌++◌, Text, same, Outcome, ok, throws, Error, require,
  or_undefined, get_elem?, ltb, length, ◌>>=◌, ◌>>◌,
}
use gyoto.Value.{
  ℤ, Value, PropertyType, boolean, long, unsigned_long, size, double, string, vector_double,
  vector_unsigned_long, cast, to_bool, to_long, to_unsigned_long, to_size, to_double, to_string,
  to_vector_double, to_vector_unsigned_long, to_metric, to_astrobj, to_screen, to_spectrum,
  to_spectrometer, double_t, long_t, unsigned_long_t, size_t_t, bool_t, string_t, filename_t,
  vector_double_t, vector_unsigned_long_t, metric_t, screen_t, astrobj_t, spectrum_t,
  spectrometer_t, empty_t,
}

-- A null pointer to an accessor is `none`. The member of a union that is used is the one of `type`.
pub record Property (D O S : Type 0) : Type 0 where
  pub name : Text
  pub name_false : Text
  pub type : PropertyType
  pub setter : Option (Value D O → S → Outcome S)
  pub getter : Option (S → Outcome (Value D O))
  pub setter_unit : Option (Value D O → Text → S → Outcome S)
  pub getter_unit : Option (Text → S → Outcome (Value D O))

-- A pointer into a list of properties: null, or a property with what ++prop and prop->parent point to.
pub data Properties (D O S : Type 0) : Type 0 where
  null : Properties D O S
  item : Property D O S → Properties D O S → Properties D O S → Properties D O S

abbrev pub is_bool : PropertyType → Bool
is_bool bool_t = true
is_bool t = false

-- The types whose accessors may take a unit.
abbrev pub is_measured : PropertyType → Bool
is_measured double_t = true
is_measured vector_double_t = true
is_measured t = false

abbrev pub is_typed : PropertyType → Bool
is_typed empty_t = false
is_typed t = true

-- if (unit != "") GYOTO_ERROR(...)
abbrev pub without_unit : Text → Outcome (Unit {0})
without_unit unit = require (same unit []) Error.unit_not_supported

-- Value(!val), which is a bool
abbrev pub negated : {D O : Type 0} → Bool → Value D O → Outcome (Value D O)
negated false val = ok val
negated true val = to_bool val >>= λ b. ok (boolean (not b))

module _ {D O S : Type 0} where
  -- Property::operator bool
  abbrev pub is_item : Property D O S → Bool
  is_item p = is_typed p.type || not (same p.name [])

  abbrev pub answers : Text → Property D O S → Bool
  answers pname p = same p.name pname || (is_bool p.type && same p.name_false pname)

  -- Object::property
  abbrev pub property : Properties D O S → Text → Option (Property D O S)
  property null pname = none
  property (item p next parent) pname =
      let after = property next pname in
      let above = property parent pname in
      if is_item p then (if answers pname p then some p else after) else above

  -- Setting the empty property does nothing.
  pub set : Property D O S → Value D O → S → Outcome S
  set p val s =
      if is_typed p.type
      then elim p.setter [
        | none ↦ throws Error.not_settable
        | some setter ↦ cast p.type val >>= λ v. setter v s
      ]
      else ok s

  -- set(p, val, unit) for a double or a vector of these
  pub set_measured : Property D O S → Value D O → Text → S → Outcome S
  unfolding set
  set_measured p val unit s = elim p.setter_unit [
    | some setu ↦ cast p.type val >>= λ v. setu v unit s
    | none ↦ without_unit unit >> set p val s
  ]

  pub set_unit : Property D O S → Value D O → Text → S → Outcome S
  unfolding set_measured
  set_unit p val unit s =
      if is_measured p.type
      then set_measured p val unit s
      else (if is_typed p.type
          then without_unit unit >> set p val s
          else throws Error.empty_property)

  pub get : Property D O S → S → Outcome (Value D O)
  get p s =
      if is_typed p.type
      then elim p.getter [ none ↦ throws Error.not_gettable | some getter ↦ getter s ]
      else throws Error.empty_property

  pub get_measured : Property D O S → Text → S → Outcome (Value D O)
  unfolding get
  get_measured p unit s = elim p.getter_unit [
    | some getu ↦ getu unit s
    | none ↦ without_unit unit >> get p s
  ]

  pub get_unit : Property D O S → Text → S → Outcome (Value D O)
  unfolding get_measured
  get_unit p unit s =
      if is_measured p.type then get_measured p unit s else without_unit unit >> get p s

  -- p->type == Property::bool_t && pname == p->name_false
  abbrev pub is_negated : Property D O S → Text → Bool
  is_negated p pname = is_bool p.type && same pname p.name_false

  abbrev pub found : Option (Property D O S) → Outcome (Property D O S)
  found none = throws Error.no_such_property
  found (some p) = ok p

  pub set_by_name : Properties D O S → Text → Value D O → S → Outcome S
  set_by_name props pname val s = do
    p ← found (property props pname)
    v ← negated (is_negated p pname) val
    set p v s

  pub set_by_name_unit : Properties D O S → Text → Value D O → Text → S → Outcome S
  unfolding set_unit
  set_by_name_unit props pname val unit s = do
    p ← found (property props pname)
    v ← negated (is_negated p pname) val
    set_unit p v unit s

  pub get_by_name : Properties D O S → Text → S → Outcome (Value D O)
  get_by_name props pname s = do
    p ← found (property props pname)
    res ← get p s
    negated (is_negated p pname) res

  pub get_by_name_unit : Properties D O S → Text → Text → S → Outcome (Value D O)
  unfolding get_unit
  get_by_name_unit props pname unit s = do
    p ← found (property props pname)
    res ← get_unit p unit s
    negated (is_negated p pname) res
