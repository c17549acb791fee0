-- ===== src/Value.antt =====
-- Gyoto::Value, in lib/Value.C and include/GyotoValue.h: a value of one of the types that a property
-- can have. `D` is the type `double` and `O` that of the smart pointers to metrics, screens, objects,
-- spectra and spectrometers. A `long` is a number between -2^63 and 2^63 - 1; `size_t` is a type of
-- its own, as where GYOTO_SIZE__T_IS_UNSIGNED_LONG is not defined.
mod Tests
pub mod Casts
use gyoto.Prelude.{
  ℕ, zero, suc, ◌-◌, ◌^◌, ◌==◌, ltb, not, if◌then◌else◌, Bool, true, false, List, Text, Outcome, ok,
  throws, Error, ◌>>=◌,
}

-- pos n is n, and negsuc n is -(n + 1).
pub data ℤ : Type 0 where
  pos negsuc : ℕ → ℤ

pub data PropertyType : Type 0 where
  double_t long_t unsigned_long_t size_t_t bool_t string_t filename_t : PropertyType
  vector_double_t vector_unsigned_long_t : PropertyType
  metric_t screen_t astrobj_t spectrum_t spectrometer_t empty_t : PropertyType

pub data Value (D O : Type 0) : Type 0 where
  no_value : Value D O
  double : D → Value D O
  boolean : Bool → Value D O
  long : ℤ → Value D O
  unsigned_long size : ℕ → Value D O
  string : Text → Value D O
  vector_double : List D → Value D O
  vector_unsigned_long : List ℕ → Value D O
  metric astrobj spectrum spectrometer screen : O → Value D O

-- long(ULong): the number of the same 64 bits
abbrev pub signed : ℕ → ℤ
signed u = if ltb u (2 ^ 63) then pos u else negsuc (2 ^ 64 - 1 - u)

-- (unsigned long)(Long)
abbrev pub unsigned : ℤ → ℕ
unsigned (pos n) = n
unsigned (negsuc n) = 2 ^ 64 - 1 - n

-- bool(Long)
abbrev pub is_nonzero : ℤ → Bool
is_nonzero (pos n) = not (n == 0)
is_nonzero (negsuc n) = true

module _ {D O : Type 0} where
  -- The cast operators. Those to integers and to bool convert from any integer.
  abbrev pub to_long : Value D O → Outcome ℤ
  to_long (long n) = ok n
  to_long (unsigned_long u) = ok (signed u)
  to_long (size u) = ok (signed u)
  to_long v = throws Error.wrong_value

  abbrev pub to_unsigned_long : Value D O → Outcome ℕ
  to_unsigned_long (long n) = ok (unsigned n)
  to_unsigned_long (unsigned_long u) = ok u
  to_unsigned_long (size u) = ok u
  to_unsigned_long v = throws Error.wrong_value

  abbrev pub to_size : Value D O → Outcome ℕ
  to_size (long n) = ok (unsigned n)
  to_size (unsigned_long u) = ok u
  to_size (size u) = ok u
  to_size v = throws Error.wrong_value

  abbrev pub to_bool : Value D O → Outcome Bool
  to_bool (boolean b) = ok b
  to_bool (long n) = ok (is_nonzero n)
  to_bool (unsigned_long u) = ok (not (u == 0))
  to_bool (size u) = ok (not (u == 0))
  to_bool v = throws Error.wrong_value

  abbrev pub to_double : Value D O → Outcome D
  to_double (double d) = ok d
  to_double v = throws Error.wrong_value

  abbrev pub to_string : Value D O → Outcome Text
  to_string (string t) = ok t
  to_string v = throws Error.wrong_value

  abbrev pub to_vector_double : Value D O → Outcome (List D)
  to_vector_double (vector_double ds) = ok ds
  to_vector_double v = throws Error.wrong_value

  abbrev pub to_vector_unsigned_long : Value D O → Outcome (List ℕ)
  to_vector_unsigned_long (vector_unsigned_long us) = ok us
  to_vector_unsigned_long v = throws Error.wrong_value

  abbrev pub to_metric : Value D O → Outcome O
  to_metric (metric o) = ok o
  to_metric v = throws Error.wrong_value

  abbrev pub to_astrobj : Value D O → Outcome O
  to_astrobj (astrobj o) = ok o
  to_astrobj v = throws Error.wrong_value

  abbrev pub to_spectrum : Value D O → Outcome O
  to_spectrum (spectrum o) = ok o
  to_spectrum v = throws Error.wrong_value

  abbrev pub to_spectrometer : Value D O → Outcome O
  to_spectrometer (spectrometer o) = ok o
  to_spectrometer v = throws Error.wrong_value

  abbrev pub to_screen : Value D O → Outcome O
  to_screen (screen o) = ok o
  to_screen v = throws Error.wrong_value

  -- A value cast to the type of an accessor's argument, as a value again: (this->*set)(val).
  abbrev pub cast : PropertyType → Value D O → Outcome (Value D O)
  cast empty_t v = ok v
  cast double_t v = to_double v >>= λ d. ok (double d)
  cast long_t v = to_long v >>= λ n. ok (long n)
  cast unsigned_long_t v = to_unsigned_long v >>= λ u. ok (unsigned_long u)
  cast size_t_t v = to_size v >>= λ u. ok (size u)
  cast bool_t v = to_bool v >>= λ b. ok (boolean b)
  cast string_t v = to_string v >>= λ t. ok (string t)
  cast filename_t v = to_string v >>= λ t. ok (string t)
  cast vector_double_t v = to_vector_double v >>= λ ds. ok (vector_double ds)
  cast vector_unsigned_long_t v = to_vector_unsigned_long v >>= λ us. ok (vector_unsigned_long us)
  cast metric_t v = to_metric v >>= λ o. ok (metric o)
  cast astrobj_t v = to_astrobj v >>= λ o. ok (astrobj o)
  cast spectrum_t v = to_spectrum v >>= λ o. ok (spectrum o)
  cast spectrometer_t v = to_spectrometer v >>= λ o. ok (spectrometer o)
  cast screen_t v = to_screen v >>= λ o. ok (screen o)
