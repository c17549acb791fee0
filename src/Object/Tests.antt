-- ===== src/Object/Tests.antt =====
-- A class with a bool, whose names are 1 and 2, over a class with a long, whose name is 3.
use gyoto.Prelude.{
  ◌+◌, ◌-◌, ltb, if◌then◌else◌, ◌≡◌, refl, Bool, true, false, none, some, [], ◌∷◌, Text, ℕ, Outcome,
  ok, ok-injective,
}
use gyoto.Value.{ℤ, pos, negsuc, Value, boolean, long, cast, bool_t, long_t, empty_t}
use gyoto.Object.{Property, Properties, null, item, set, set_unit, get, set_by_name, get_by_name}
use gyoto.Object.Access.{IsKept, set_by_name-get_by_name}
use gyoto.Object.Parameters.{Notation, parameter, fill_property, set_parameter}
use gyoto.Object.Parameters.RoundTrip.{fill_property-set_parameter}

abbrev State : Type 0
State = Bool × ℤ

abbrev Prop : Type 0
Prop = Property (Unit {0}) Text State

abbrev set_flag : Value (Unit {0}) Text → State → Outcome State
set_flag (boolean b) s = ok (b, s.1)
set_flag v s = ok s

abbrev set_number : Value (Unit {0}) Text → State → Outcome State
set_number (long n) s = ok (s.0, n)
set_number v s = ok s

abbrev flag : Prop
flag = record {
  name = 1 ∷ [];
  name_false = 2 ∷ [];
  type = bool_t;
  setter = some set_flag;
  getter = some (λ s. ok (boolean s.0));
  setter_unit = none;
  getter_unit = none;
}

abbrev number : Prop
number = record {
  name = 3 ∷ [];
  name_false = [];
  type = long_t;
  setter = some set_number;
  getter = some (λ s. ok (long s.1));
  setter_unit = none;
  getter_unit = none;
}

abbrev link : Prop
link = record {
  name = [];
  name_false = [];
  type = empty_t;
  setter = none;
  getter = none;
  setter_unit = none;
  getter_unit = none;
}

abbrev props : Properties (Unit {0}) Text State
props = item flag (item link null (item number (item link null null) null)) null

-- Setting the name for false to true clears the flag.
clears : set_by_name props (2 ∷ []) (boolean true) (true, pos 0) ≡ ok (false, pos 0)
unfolding set_by_name set
clears = refl

flag-reads :
    (v : Value (Unit {0}) Text) (s s' : State)
    → cast bool_t v ≡ ok v
    → set_flag v s ≡ ok s'
    → ok (boolean s'.0) ≡ ok v
flag-reads (boolean b) s s' c e = let e' = ok-injective e in cc
flag-reads v s s' c e = cc

flag-IsKept : IsKept flag
flag-IsKept = record {
  setter = set_flag;
  getter = λ s. ok (boolean s.0);
  has_setter = refl;
  has_getter = refl;
  reads = flag-reads;
}

set_by_name-get_by_name_example :
    get_by_name props (2 ∷ []) (false, pos 0) ≡ cast bool_t (boolean true)
set_by_name-get_by_name_example =
    set_by_name-get_by_name props (2 ∷ []) flag (boolean true) (true, pos 0) (false, pos 0) refl
      refl flag-IsKept clears

-- Numbers of one decimal digit are read again; a larger number is not, and there is but one `double`.
abbrev digit : ℕ → Text
digit n = if ltb n 10 then (48 + n) ∷ [] else 57 ∷ []

abbrev written_long : ℤ → Text
written_long (pos n) = digit n
written_long (negsuc n) = 45 ∷ digit (n + 1)

abbrev read_digit : Text → ℕ
read_digit [] = 0
read_digit (c ∷ cs) = c - 48

abbrev notation : Notation (Unit {0})
notation = record {
  strtol = λ t. pos (read_digit t);
  strtoul = read_digit;
  atof = λ t. tt;
  parse_array = λ t. [];
  parse_array_ulong = λ t. t;
  print_long = written_long;
  print_ulong = digit;
  print_double = λ d. 48 ∷ [];
  print_array = λ ds. [];
  print_array_ulong = λ us. us;
}

read_number : get number (false, pos 7) ≡ ok (long (pos 7))
unfolding get
read_number = refl

write_number :
    fill_property notation (λ o. false) number (false, pos 7) ≡ ok (parameter (3 ∷ []) (55 ∷ []))
unfolding fill_property get
write_number = refl

-- The number 7 is written as the digit of code 55.
fill_property-set_parameter_example :
    set_parameter notation number (3 ∷ []) (55 ∷ []) [] (true, pos 0)
    ≡ set_unit number (long (pos 7)) [] (true, pos 0)
fill_property-set_parameter_example =
    fill_property-set_parameter notation (λ o. false) number (3 ∷ []) (55 ∷ []) (long (pos 7))
      (false, pos 7) (true, pos 0) refl (λ e. cc) read_number refl write_number
