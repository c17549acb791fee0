-- ===== src/Object/Parameters.antt =====
-- Object::fillProperty, fillElement and setParameter, in lib/Object.C: the properties of an object as
-- the texts of an XML element. The number that a text begins with, the arrays in a text, and how
-- numbers are written are the parameter `Notation`: strtol, strtoul, atof, and FactoryMessenger.
pub mod RoundTrip
pub mod Plugins
use gyoto.Prelude.{
  ◌%◌, ◌^◌, starts_with, drop, ℕ, zero, suc, ◌+◌, Bool, true, false, ◌&&◌, ◌||◌, not, if◌then◌else◌,
  Option, none, some, List, [], ◌∷◌, ◌++◌, Text, same, Outcome, ok, throws, Error, require,
  or_undefined, get_elem?, ltb, length, ◌>>=◌, ◌>>◌,
}
use gyoto.Value.{
  ℤ, Value, PropertyType, boolean, long, unsigned_long, size, double, string, vector_double,
  vector_unsigned_long, cast, to_bool, to_long, to_unsigned_long, to_size, to_double, to_string,
  to_vector_double, to_vector_unsigned_long, to_metric, to_astrobj, to_screen, to_spectrum,
  to_spectrometer, double_t, long_t, unsigned_long_t, size_t_t, bool_t, string_t, filename_t,
  vector_double_t, vector_unsigned_long_t, metric_t, screen_t, astrobj_t, spectrum_t,
  spectrometer_t, empty_t,
}
use gyoto.Object.{is_typed, is_measured, Property, Properties, property, set, set_unit, get}

pub record Notation (D : Type 0) : Type 0 where
  pub strtol : Text → ℤ
  pub strtoul : Text → ℕ
  pub atof : Text → D
  pub parse_array : Text → List D
  pub parse_array_ulong : Text → List ℕ
  pub print_long : ℤ → Text
  pub print_ulong : ℕ → Text
  pub print_double : D → Text
  pub print_array : List D → Text
  pub print_array_ulong : List ℕ → Text

-- What fillProperty writes: a parameter with its content, an object below the element, or nothing.
pub data Written (O : Type 0) : Type 0 where
  parameter : Text → Text → Written O
  child : O → Written O
  nothing : Written O

-- if (!sp) return;
abbrev pub child_unless_null : {O : Type 0} → (O → Bool) → O → Written O
child_unless_null is_null o = if is_null o then nothing else child o

module _ {D O : Type 0} (notation : Notation D) (is_null : O → Bool) where
  open notation use {print_long, print_ulong, print_double, print_array, print_array_ulong}

  -- The switch of fillProperty, on the type, the two names and the value of the property.
  abbrev pub written_as : PropertyType → Text → Text → Value D O → Outcome (Written O)
  written_as empty_t name name_false v = ok nothing
  written_as bool_t name name_false v =
      to_bool v >>= λ b. ok (parameter (if b then name else name_false) [])
  written_as long_t name name_false v = to_long v >>= λ n. ok (parameter name (print_long n))
  written_as unsigned_long_t name name_false v =
      to_unsigned_long v >>= λ n. ok (parameter name (print_ulong n))
  written_as size_t_t name name_false v = to_size v >>= λ n. ok (parameter name (print_ulong n))
  written_as double_t name name_false v = to_double v >>= λ d. ok (parameter name (print_double d))
  written_as string_t name name_false v = to_string v >>= λ t. ok (parameter name t)
  written_as filename_t name name_false v = to_string v >>= λ t. ok (parameter name t)
  written_as vector_double_t name name_false v =
      to_vector_double v >>= λ ds. ok (parameter name (print_array ds))
  written_as vector_unsigned_long_t name name_false v =
      to_vector_unsigned_long v >>= λ us. ok (parameter name (print_array_ulong us))
  written_as metric_t name name_false v = to_metric v >>= λ o. ok (child o)
  written_as astrobj_t name name_false v = to_astrobj v >>= λ o. ok (child o)
  written_as screen_t name name_false v = to_screen v >>= λ o. ok (child o)
  written_as spectrum_t name name_false v = to_spectrum v >>= λ o. ok (child_unless_null is_null o)
  written_as spectrometer_t name name_false v =
      to_spectrometer v >>= λ o. ok (child_unless_null is_null o)

module _ {D O : Type 0} (notation : Notation D) where
  open notation use {strtol, strtoul, atof, parse_array, parse_array_ulong}

  -- The switch of setParameter(p, name, content, unit): the value that a content stands for, where
  -- `named` says whether the name is p.name.
  abbrev pub content_value : PropertyType → Bool → Text → Outcome (Value D O)
  content_value bool_t named content = ok (boolean named)
  content_value long_t named content = ok (long (strtol content))
  content_value unsigned_long_t named content = ok (unsigned_long (strtoul content))
  content_value size_t_t named content = ok (size (strtoul content))
  content_value double_t named content = ok (double (atof content))
  content_value filename_t named content = ok (string content)
  content_value string_t named content = ok (string content)
  content_value vector_double_t named content = ok (vector_double (parse_array content))
  content_value vector_unsigned_long_t named content =
      ok (vector_unsigned_long (parse_array_ulong content))
  content_value t named content = throws Error.unimplemented_type

module _ {D O S : Type 0} (notation : Notation D) where
  -- setParameter(p, name, content, unit): doubles and vectors of doubles are set with the unit.
  pub set_parameter : Property D O S → Text → Text → Text → S → Outcome S
  set_parameter p name content unit s = do
    val ← content_value notation p.type (same name p.name) content
    if is_measured p.type then set_unit p val unit s else set p val s

module _ {D O S : Type 0} (notation : Notation D) (is_null : O → Bool) where
  unfoldable pub fill_property : Property D O S → S → Outcome (Written O)
  fill_property p s =
      if is_typed p.type
      then get p s >>= written_as notation is_null p.type p.name p.name_false
      else ok nothing

-- name.find("::"): what stands before it and after it
abbrev pub split_scope : Text → Option (Text × Text)
split_scope [] = none
split_scope (c ∷ cs) =
    let rest = split_scope cs in
    if starts_with (58 ∷ 58 ∷ []) (c ∷ cs)
    then some ([], drop 2 (c ∷ cs))
    else elim rest [ none ↦ none | some (childname, name) ↦ some (c ∷ childname, name) ]

-- The object that a value holds, where the type of the property is one of objects.
abbrev pub to_object : {D O : Type 0} → PropertyType → Value D O → Outcome O
to_object screen_t val = to_screen val
to_object metric_t val = to_metric val
to_object astrobj_t val = to_astrobj val
to_object spectrum_t val = to_spectrum val
to_object spectrometer_t val = to_spectrometer val
to_object t val = throws Error.not_an_object

module _ {D O S : Type 0} (notation : Notation D) (is_null : O → Bool) where
  -- setParameter(name, content, unit): 0 where the name is known, else 1 or what the child answers. The
  -- call of the child's own setParameter, which is virtual, is the parameter `call`.
  pub set_parameter_by_name :
      Properties D O S
      → (O → Text → Text → Text → S → Outcome (ℕ × S))
      → Text
      → Text
      → Text
      → S
      → Outcome (ℕ × S)
  unfolding set_parameter get
  set_parameter_by_name props call name content unit s = elim (property props name) [
    | some p ↦ set_parameter notation p name content unit s >>= λ s'. ok (0, s')
    | none ↦ elim (split_scope name) [
      | none ↦ ok (1, s)
      | some (childname, rest) ↦ elim (property props childname) [
        | none ↦ ok (1, s)
        | some p ↦ (do
          val ← get p s
          obj ← to_object p.type val
          if is_null obj then throws Error.child_not_set else call obj rest content unit s)
      ]
    ]
  ]

-- The attribute "plugin" of an element; `unfinished` where the loop that writes it goes on.
pub data Attribute : Type 0 where
  absent unfinished : Attribute
  written : Text → Attribute

-- The loop of fillElement that joins the names of the plug-ins, `for (size_t i=1; i<np; ++np)`, as far
-- as `fuel` rounds go: it raises `np` instead of `i`.
pub join_plugins : ℕ → List Text → ℕ → ℕ → Text → Outcome Attribute
join_plugins zero plgs i np plg = ok unfinished
join_plugins (suc fuel) plgs i np plg =
    let rest = join_plugins fuel plgs i in
    if ltb i np
    then (do name ← or_undefined (get_elem? plgs i); rest ((np + 1) % 2 ^ 64) (plg ++ (44 ∷ name)))
    else ok (written plg)

pub plugin_attribute : ℕ → List Text → Outcome Attribute
unfolding join_plugins
plugin_attribute fuel [] = ok absent
plugin_attribute fuel (p ∷ ps) = join_plugins fuel (p ∷ ps) 1 (length (p ∷ ps)) p
