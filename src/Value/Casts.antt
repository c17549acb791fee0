-- ===== src/Value/Casts.antt =====
-- What the casts keep.
use gyoto.Prelude.{
  ℕ, ◌-◌, ◌^◌, ◌<◌, ◌≡◌, ap, inl, inr, refl, subst, false, Bool-cases, ltb, Outcome, ok, ◌>>=◌,
  >>=-eq-ok, ok-injective, arith,
}
use gyoto.Value.{
  ℤ, pos, negsuc, Value, signed, unsigned, long, unsigned_long, size, cast, PropertyType, double,
  boolean, string, vector_double, vector_unsigned_long, metric, astrobj, spectrum, spectrometer,
  screen, double_t, long_t, unsigned_long_t, size_t_t, bool_t, string_t, filename_t,
  vector_double_t, vector_unsigned_long_t, metric_t, screen_t, astrobj_t, spectrum_t,
  spectrometer_t, empty_t, to_double, to_long, to_unsigned_long, to_size, to_bool, to_string,
  to_vector_double, to_vector_unsigned_long, to_metric, to_astrobj, to_spectrum, to_spectrometer,
  to_screen,
}

-- The numbers that a `long` can have.
abbrev pub IsLong : ℤ → Type 0
IsLong (pos n) = n < 2 ^ 63
IsLong (negsuc n) = n < 2 ^ 63

signed-unsigned : (n : ℤ) → IsLong n → signed (unsigned n) ≡ n
signed-unsigned (pos n) h = ground (arith, h)
signed-unsigned (negsuc n) h =
    let big : ltb (2 ^ 64 - 1 - n) (2 ^ 63) ≡ false = ground (arith, h) in
    let back : 2 ^ 64 - 1 - (2 ^ 64 - 1 - n) ≡ n = omega arith in rw (big, back) refl

unsigned-signed : (u : ℕ) → u < 2 ^ 64 → unsigned (signed u) ≡ u
unsigned-signed u h = elim (Bool-cases (ltb u (2 ^ 63))) [
  | inl small ↦ rw small refl
  | inr big ↦ let back : 2 ^ 64 - 1 - (2 ^ 64 - 1 - u) ≡ u = omega arith in rw (big, back) refl
]

abbrev pub IsIntegerType : PropertyType → Type 0
IsIntegerType long_t = Unit
IsIntegerType unsigned_long_t = Unit
IsIntegerType size_t_t = Unit
IsIntegerType t = ⊥

module _ {D O : Type 0} where
  -- An integer within the bounds of its type.
  abbrev pub IsInteger : Value D O → Type 0
  IsInteger (long n) = IsLong n
  IsInteger (unsigned_long u) = u < 2 ^ 64
  IsInteger (size u) = u < 2 ^ 64
  IsInteger v = ⊥

  abbrev pub type_of : Value D O → PropertyType
  type_of (long n) = long_t
  type_of (unsigned_long u) = unsigned_long_t
  type_of (size u) = size_t_t
  type_of v = empty_t

  -- An integer within the bounds of its type that is cast to another integer type and back is the
  -- same again, negative numbers and those of 2^63 and more included.
  pub cast-cast :
      (v : Value D O) (t : PropertyType)
      → IsInteger v
      → IsIntegerType t
      → (cast t v >>= cast (type_of v)) ≡ ok v
  cast-cast (long n) long_t h i = refl
  cast-cast (long n) unsigned_long_t h i = ap (λ m. ok (long m)) (signed-unsigned n h)
  cast-cast (long n) size_t_t h i = ap (λ m. ok (long m)) (signed-unsigned n h)
  cast-cast (long n) t h i = absurd i
  cast-cast (unsigned_long u) long_t h i = ap (λ m. ok (unsigned_long m)) (unsigned-signed u h)
  cast-cast (unsigned_long u) unsigned_long_t h i = refl
  cast-cast (unsigned_long u) size_t_t h i = refl
  cast-cast (unsigned_long u) t h i = absurd i
  cast-cast (size u) long_t h i = ap (λ m. ok (size m)) (unsigned-signed u h)
  cast-cast (size u) unsigned_long_t h i = refl
  cast-cast (size u) size_t_t h i = refl
  cast-cast (size u) t h i = absurd i
  cast-cast v t h i = absurd h

  cast_again :
      {A : Type 0} (read : Value D O → Outcome A) (hold : A → Value D O) (t : PropertyType)
      (v w : Value D O)
      → ((x : A) → cast t (hold x) ≡ ok (hold x))
      → read v >>= (λ x. ok (hold x)) ≡ ok w
      → cast t w ≡ ok w
  cast_again read hold t v w holds r =
      let (x, e, f) = >>=-eq-ok (read v) (λ x. ok (hold x)) r in
      subst (λ u. cast t u ≡ ok u) (ok-injective f) (holds x)

  -- What a cast gives is of its type.
  pub cast-stable : (t : PropertyType) (v w : Value D O) → cast t v ≡ ok w → cast t w ≡ ok w
  cast-stable empty_t v w r = refl
  cast-stable double_t v w r = cast_again to_double double double_t v w (λ x. refl) r
  cast-stable long_t v w r = cast_again to_long long long_t v w (λ x. refl) r
  cast-stable unsigned_long_t v w r =
      cast_again to_unsigned_long unsigned_long unsigned_long_t v w (λ x. refl) r
  cast-stable size_t_t v w r = cast_again to_size size size_t_t v w (λ x. refl) r
  cast-stable bool_t v w r = cast_again to_bool boolean bool_t v w (λ x. refl) r
  cast-stable string_t v w r = cast_again to_string string string_t v w (λ x. refl) r
  cast-stable filename_t v w r = cast_again to_string string filename_t v w (λ x. refl) r
  cast-stable vector_double_t v w r =
      cast_again to_vector_double vector_double vector_double_t v w (λ x. refl) r
  cast-stable vector_unsigned_long_t v w r =
      cast_again to_vector_unsigned_long vector_unsigned_long vector_unsigned_long_t v w (λ x. refl)
        r
  cast-stable metric_t v w r = cast_again to_metric metric metric_t v w (λ x. refl) r
  cast-stable astrobj_t v w r = cast_again to_astrobj astrobj astrobj_t v w (λ x. refl) r
  cast-stable spectrum_t v w r = cast_again to_spectrum spectrum spectrum_t v w (λ x. refl) r
  cast-stable spectrometer_t v w r =
      cast_again to_spectrometer spectrometer spectrometer_t v w (λ x. refl) r
  cast-stable screen_t v w r = cast_again to_screen screen screen_t v w (λ x. refl) r
