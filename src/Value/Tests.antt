-- ===== src/Value/Tests.antt =====
-- Casts of -1.
use gyoto.Prelude.{◌≡◌, ok, ◌-◌, ◌^◌, refl, ℕ, Text}
use gyoto.Value.{Value, negsuc, long, unsigned_long, cast, unsigned_long_t}

abbrev minus_one : Value ℕ Text
minus_one = long (negsuc 0)

as_unsigned : cast unsigned_long_t minus_one ≡ ok (unsigned_long (2 ^ 64 - 1))
as_unsigned = refl
