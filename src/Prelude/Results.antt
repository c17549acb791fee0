-- ===== src/Prelude/Results.antt =====
-- What a call of the library can come to: a value, a `Gyoto::Error` thrown by the macro GYOTO_ERROR
-- (include/GyotoError.h), or undefined behaviour, such as a read past the end of an array.
use mathlib.Core.Path.{◌≡◌, refl}
use mathlib.Core.Bool.{Bool, true, false}
use mathlib.Core.Option.{Option, none, some}

-- The messages that the modelled code throws.
pub data Error : Type 0 where
  no_such_element overflow null_dereference : Error
  pixel_set_lacks_deref angle_set_dereferenced : Error
  angle_set_lacks_angle pixel_set_asked_angle : Error
  kinds_differ sizes_differ : Error
  unregistered_kind load_failed init_missing : Error
  unrecognized_mass no_such_channel date_out_of_reach : Error
  wrong_value no_such_property empty_property : Error
  not_settable not_gettable unit_not_supported unimplemented_type : Error
  not_an_object child_not_set incompatible_kind bad_index : Error
  dimension_null dimension_one impossible_index radial_dimension repeat_phi_null dimensions_differ
        no_emission :
      Error
  bad_phi_index step_null bad_interpolation multifrequency unknown_quantity : Error

pub data Outcome {ℓ} (A : Type ℓ) : Type ℓ where
  ok : A → Outcome A
  throws : Error → Outcome A
  undefined : Outcome A

infixl 5 ◌>>=◌ ◌>>◌
abbrev pub ◌>>=◌ {ℓ κ} : {A : Type ℓ} {B : Type κ} → Outcome A → (A → Outcome B) → Outcome B
undefined >>= next = undefined
throws message >>= next = throws message
ok value >>= next = next value

abbrev pub ◌>>◌ {ℓ} : {B : Type ℓ} → Outcome (Unit {0}) → Outcome B → Outcome B
first >> second = first >>= λ done. second

-- `if (!test) GYOTO_ERROR(e)`
abbrev pub require : Bool → Error → Outcome (Unit {0})
require true e = ok tt
require false e = throws e

-- A read that is undefined where there is nothing to read.
abbrev pub or_undefined {ℓ} : {A : Type ℓ} → Option A → Outcome A
or_undefined none = undefined
or_undefined (some a) = ok a

pub >>=-eq-ok {ℓ κ} :
    {A : Type ℓ} {B : Type κ} {result : B} (call : Outcome A) (next : A → Outcome B)
    → call >>= next ≡ ok result
    → (value : A) × (call ≡ ok value) × (next value ≡ ok result)
>>=-eq-ok undefined next e = cc
>>=-eq-ok (throws message) next e = cc
>>=-eq-ok (ok value) next e = (value, refl, e)

pub ok-injective {ℓ} : {A : Type ℓ} {a b : A} → ok a ≡ ok b → a ≡ b
ok-injective e = cc

-- The call has defined behaviour, and what it returns, if it does not throw, satisfies `P`.
abbrev pub Ensures {ℓ} : {A : Type ℓ} → (A → Type 0) → Outcome A → Type 0
Ensures P (ok a) = P a
Ensures P (throws e) = Unit {0}
Ensures P undefined = ⊥

pub Ensures->>= {ℓ κ} :
    {A : Type ℓ} {B : Type κ} (P : A → Type 0) (Q : B → Type 0) (call : Outcome A)
    (next : A → Outcome B)
    → Ensures P call
    → ((a : A) → P a → Ensures Q (next a))
    → Ensures Q (call >>= next)
Ensures->>= P Q (ok a) next h k = k a h
Ensures->>= P Q (throws e) next h k = tt
Ensures->>= P Q undefined next h k = h
