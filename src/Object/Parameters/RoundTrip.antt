-- ===== src/Object/Parameters/RoundTrip.antt =====
-- What fillProperty writes, setParameter reads.
use gyoto.Prelude.{
  ◌≡◌, ◌≢◌, refl, sym, ap, ◌∙◌, subst, Bool, true, false, Bool-cases, if◌then◌else◌, inl, inr, [],
  Text, same, same→≡, same_refl, Outcome, ok, ◌>>=◌, >>=-eq-ok, ok-injective,
}
use gyoto.Value.{
  to_metric, to_astrobj, to_screen, to_spectrum, to_spectrometer, Value, PropertyType, boolean,
  cast, to_bool, bool_t, long, unsigned_long, size, double, string, vector_double,
  vector_unsigned_long, double_t, long_t, unsigned_long_t, size_t_t, string_t, filename_t,
  vector_double_t, vector_unsigned_long_t, metric_t, screen_t, astrobj_t, spectrum_t,
  spectrometer_t, empty_t, to_long, to_unsigned_long, to_size, to_double, to_string,
  to_vector_double, to_vector_unsigned_long,
}
use gyoto.Object.{Property, is_measured, is_typed, set_unit, get}
use gyoto.Object.Access.{set_unit_lem}
use gyoto.Object.Parameters.{
  Notation, Written, parameter, child, nothing, child_unless_null, fill_property, set_parameter,
  written_as, content_value,
}

-- The value, where it is a number or an array, is read again from what is written of it: an integer in
-- the range of strtol or strtoul, and a double that the digits printed determine.
abbrev pub IsReadable : {D O : Type 0} → Notation D → Value D O → Type 0
IsReadable notation (double d) = notation.atof (notation.print_double d) ≡ d
IsReadable notation (long n) = notation.strtol (notation.print_long n) ≡ n
IsReadable notation (unsigned_long n) = notation.strtoul (notation.print_ulong n) ≡ n
IsReadable notation (size n) = notation.strtoul (notation.print_ulong n) ≡ n
IsReadable notation (vector_double ds) = notation.parse_array (notation.print_array ds) ≡ ds
IsReadable notation (vector_unsigned_long us) =
    notation.parse_array_ulong (notation.print_array_ulong us) ≡ us
IsReadable notation v = Unit {0}

parameter-content :
    {O : Type 0} {n n' c c' : Text}
    → (the_one the_other : Written O) → the_one ≡ parameter n c
    → the_other ≡ parameter n' c'
    → the_one ≡ the_other
    → (n ≡ n') × (c ≡ c')
parameter-content the_one the_other a b e = (cc, cc)

same-false : (s t : Text) → t ≢ s → same s t ≡ false
same-false s t h = elim (Bool-cases (same s t)) [
  | inl equal ↦ absurd (h (sym (same→≡ s t equal)))
  | inr differ ↦ differ
]

unless_null :
    {O : Type 0} (is_null : O → Bool) (o : O) (n c : Text)
    → child_unless_null is_null o ≡ parameter n c
    → ⊥
unless_null is_null o n c e = elim (Bool-cases (is_null o)) [
  | inl none_there ↦ let e' : nothing ≡ parameter n c = rw none_there at e in cc
  | inr there ↦ let e' : child o ≡ parameter n c = rw there at e in cc
]

read_bool :
    {O : Type 0} (b : Bool) (name name_false n c : Text) (out : Written O)
    → name ≢ name_false
    → parameter (if b then name else name_false) [] ≡ out
    → out ≡ parameter n c
    → same n name ≡ b
read_bool true name name_false n c out differ e f =
    let at : name ≡ n = (parameter-content out out (sym e) f refl).0 in
    subst (λ m. same m name ≡ true) at (same_refl name)
read_bool false name name_false n c out differ e f =
    let at : name_false ≡ n = (parameter-content out out (sym e) f refl).0 in
    subst (λ m. same m name ≡ false) at (same-false name_false name differ)

module _ {D O : Type 0} where
  -- What a value that a cast has made holds, and what is written of it.
  held :
      {A : Type 0} (to : Value D O → Outcome A) (hold : A → Value D O) (put : A → Written O)
      (v : Value D O) (out : Written O)
      → to v >>= (λ x. ok (hold x)) ≡ ok v
      → to v >>= (λ x. ok (put x)) ≡ ok out
      → (x : A) × (hold x ≡ v) × (put x ≡ out)
  held to hold put v out c w =
      let (x, e, f) = >>=-eq-ok (to v) (λ y. ok (hold y)) c in
      let (y, e', g) = >>=-eq-ok (to v) (λ z. ok (put z)) w in
      let same_one : y ≡ x = ok-injective (sym e' ∙ e) in
      (x, ok-injective f, subst (λ z. put z ≡ out) same_one (ok-injective g))

  held_read :
      {A : Type 0} (to : Value D O → Outcome A) (hold : A → Value D O) (print : A → Text)
      (read : Text → A) (v : Value D O) (name n c : Text)
      → ((x : A) → hold x ≡ v → read (print x) ≡ x)
      → to v >>= (λ x. ok (hold x)) ≡ ok v
      → ◌>>=◌ {B = Written O} (to v) (λ x. ok (parameter name (print x))) ≡ ok (parameter n c)
      → ok (hold (read c)) ≡ ok v
  held_read to hold print read v name n c back k w =
      let (x, h, e) = held to hold (λ y. parameter name (print y)) v (parameter n c) k w in
      let contents = (parameter-content (parameter name (print x)) (parameter n c) refl refl e).1 in
      ap (λ u. ok (hold u)) (ap read (sym contents) ∙ back x h) ∙ ap ok h

  no_child :
      {A : Type 0} (to : Value D O → Outcome A) (put : A → Written O) (v : Value D O) (n c : Text)
      → ((x : A) → put x ≡ parameter n c → ⊥)
      → to v >>= (λ x. ok (put x)) ≡ ok (parameter n c)
      → ⊥
  no_child to put v n c never w =
      let (x, e, f) = >>=-eq-ok (to v) (λ y. ok (put y)) w in never x (ok-injective f)

module _ {D O : Type 0} (notation : Notation D) (is_null : O → Bool) where
  read_back :
      (t : PropertyType) (name name_false n c : Text) (v : Value D O)
      → IsReadable notation v
      → (t ≡ bool_t → name ≢ name_false)
      → cast t v ≡ ok v
      → written_as notation is_null t name name_false v ≡ ok (parameter n c)
      → content_value notation t (same n name) c ≡ ok v
  read_back empty_t name name_false n c v r named k w = cc
  read_back bool_t name name_false n c v r named k w =
      let (b, h, e) =
        held to_bool boolean (λ b. parameter (if b then name else name_false) []) v _ k w in
      let b_is = read_bool b name name_false n c (parameter n c) (named refl) e refl in
      rw b_is (ap ok h)
  read_back long_t name name_false n c v r named k w =
      held_read to_long long notation.print_long notation.strtol v name n c
        (λ x h. subst (IsReadable notation) (sym h) r) k w
  read_back unsigned_long_t name name_false n c v r named k w =
      held_read to_unsigned_long unsigned_long notation.print_ulong notation.strtoul v name n c
        (λ x h. subst (IsReadable notation) (sym h) r) k w
  read_back size_t_t name name_false n c v r named k w =
      held_read to_size size notation.print_ulong notation.strtoul v name n c
        (λ x h. subst (IsReadable notation) (sym h) r) k w
  read_back double_t name name_false n c v r named k w =
      held_read to_double double notation.print_double notation.atof v name n c
        (λ x h. subst (IsReadable notation) (sym h) r) k w
  read_back string_t name name_false n c v r named k w =
      held_read to_string string (λ t. t) (λ t. t) v name n c (λ t h. refl) k w
  read_back filename_t name name_false n c v r named k w =
      held_read to_string string (λ t. t) (λ t. t) v name n c (λ t h. refl) k w
  read_back vector_double_t name name_false n c v r named k w =
      held_read to_vector_double vector_double notation.print_array notation.parse_array v name n c
        (λ x h. subst (IsReadable notation) (sym h) r) k w
  read_back vector_unsigned_long_t name name_false n c v r named k w =
      held_read to_vector_unsigned_long vector_unsigned_long notation.print_array_ulong
        notation.parse_array_ulong v name n c (λ x h. subst (IsReadable notation) (sym h) r) k w
  read_back metric_t name name_false n c v r named k w =
      absurd (no_child to_metric child v n c (λ o e. cc) w)
  read_back astrobj_t name name_false n c v r named k w =
      absurd (no_child to_astrobj child v n c (λ o e. cc) w)
  read_back screen_t name name_false n c v r named k w =
      absurd (no_child to_screen child v n c (λ o e. cc) w)
  read_back spectrum_t name name_false n c v r named k w = absurd (
      no_child to_spectrum (child_unless_null is_null) v n c (λ o e. unless_null is_null o n c e) w)
  read_back spectrometer_t name name_false n c v r named k w = absurd (
      no_child to_spectrometer (child_unless_null is_null) v n c
        (λ o e. unless_null is_null o n c e) w)

module _ {D O S : Type 0} (notation : Notation D) (is_null : O → Bool) where
  -- Where fillProperty writes a property as a parameter, setParameter with that parameter sets the
  -- property, of any object of the class, to the value that was read. The value is of the type of the
  -- property, the two names of a bool differ, and where that value is a number or an array, what is
  -- written of it reads as that value.
  pub fill_property-set_parameter :
      (p : Property D O S) (n c : Text) (v : Value D O) (s t : S)
      → IsReadable notation v
      → (p.type ≡ bool_t → p.name ≢ p.name_false)
      → get p s ≡ ok v
      → cast p.type v ≡ ok v
      → fill_property notation is_null p s ≡ ok (parameter n c)
      → set_parameter notation p n c [] t ≡ set_unit p v [] t
  unfolding fill_property set_parameter
  fill_property-set_parameter p n c v s t r named g k w = elim (Bool-cases (is_typed p.type)) [
    | inr empty ↦ let w' : ok nothing ≡ ok (parameter n c) = rw empty at w in cc
    | inl typed ↦
        let w' : written_as notation is_null p.type p.name p.name_false v ≡ ok (parameter n c) =
          rw (typed, g) at w in
        let e = read_back notation is_null p.type p.name p.name_false n c v r named k w' in
        elim (Bool-cases (is_measured p.type)) [
          | inl measured ↦ rw (e, measured) refl
          | inr other ↦ rw (e, other) (sym ((set_unit_lem p typed (inl other)).0 v t).0)
        ]
  ]
