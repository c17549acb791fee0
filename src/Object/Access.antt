-- ===== src/Object/Access.antt =====
-- What is set is what is read.
use gyoto.Prelude.{
  ◌≡◌, ◌≢◌, ◌⊎◌, inl, inr, refl, sym, subst, Bool, true, false, not, Bool-cases, none, some, [],
  ◌∷◌, Text, same, Outcome, ok, throws, Error, ◌>>=◌, >>=-eq-ok, ok-injective, arith,
}
use gyoto.Value.{Value, PropertyType, boolean, cast, to_bool, bool_t}
use gyoto.Value.Casts.{cast-stable}
use gyoto.Object.{
  Property, Properties, is_bool, is_typed, is_measured, is_negated, negated, property, set,
  set_measured, get_measured, set_unit, get, get_unit, set_by_name, get_by_name,
}

is_bool-eq : (t : PropertyType) → is_bool t ≡ true → t ≡ bool_t
is_bool-eq bool_t e = refl
is_bool-eq t e = absurd (ground arith)

not-not : (b : Bool) → not (not b) ≡ b
not-not true = refl
not-not false = refl

differs : (unit : Text) → unit ≢ [] → same unit [] ≡ false
differs [] h = absurd (h refl)
differs (c ∷ cs) h = refl

module _ {D O : Type 0} where
  -- Negated on the way in and on the way out, a bool is what was given.
  negated-negated :
      (val v w : Value D O)
      → negated true val ≡ ok v
      → cast bool_t v ≡ ok w
      → negated true w ≡ cast bool_t val
  negated-negated val v w n c =
      let (b, e, f) = >>=-eq-ok (to_bool val) (λ x. ok (boolean (not x))) n in
      let made : boolean (not b) ≡ v = ok-injective f in
      let c' : cast bool_t (boolean (not b)) ≡ ok w =
        subst (λ u. cast bool_t u ≡ ok w) (sym made) c in
      let read : boolean (not b) ≡ w = ok-injective c' in rw (sym read, e, not-not b) refl

  through :
      (neg : Bool) (t : PropertyType) (val v w : Value D O)
      → (neg ≡ true → is_bool t ≡ true)
      → negated neg val ≡ ok v
      → cast t v ≡ ok w
      → negated neg w ≡ cast t val
  through false t val v w only n c =
      let same_value : val ≡ v = ok-injective n in rw same_value (sym c)
  through true t val v w only n c =
      let bool = is_bool-eq t (only refl) in
      let c' = subst (λ u. cast u v ≡ ok w) bool c in rw bool (negated-negated val v w n c')

module _ {D O S : Type 0} where
  -- The getter reads what the setter has set, if that is of the type of the property.
  pub record IsKept (p : Property D O S) : Type 0 where
    pub setter : Value D O → S → Outcome S
    pub getter : S → Outcome (Value D O)
    pub has_setter : p.setter ≡ some setter
    pub has_getter : p.getter ≡ some getter
    pub reads :
        (v : Value D O) (s s' : S) → cast p.type v ≡ ok v → setter v s ≡ ok s' → getter s' ≡ ok v

  set-get :
      (p : Property D O S) (v : Value D O) (s s' : S)
      → IsKept p
      → is_typed p.type ≡ true
      → set p v s ≡ ok s'
      → (w : Value D O) × (cast p.type v ≡ ok w) × (get p s' ≡ ok w)
  unfolding set get
  set-get p v s s' k typed r =
      let has = k.has_setter in
      let gets = k.has_getter in
      let r' : cast p.type v >>= (λ w. k.setter w s) ≡ ok s' = rw (typed, has) at r in
      let (w, c, e) = >>=-eq-ok (cast p.type v) _ r' in
      (w, c, rw (typed, gets) (k.reads w s s' (cast-stable p.type v w c) e))

  -- Where a name stands for a property whose getter reads what its setter has set, what is read by that
  -- name after a value was set by it is the value, cast to the type of the property. This holds also of
  -- the name of a bool for false.
  pub set_by_name-get_by_name :
      (props : Properties D O S) (pname : Text) (p : Property D O S) (val : Value D O) (s s' : S)
      → property props pname ≡ some p
      → is_typed p.type ≡ true
      → IsKept p
      → set_by_name props pname val s ≡ ok s'
      → get_by_name props pname s' ≡ cast p.type val
  unfolding set_by_name get_by_name
  set_by_name-get_by_name props pname p val s s' here typed k r =
      let neg = is_negated p pname in
      let r' : negated neg val >>= (λ v. set p v s) ≡ ok s' = rw here at r in
      let (v, n, e) = >>=-eq-ok (negated neg val) (λ u. set p u s) r' in
      let (w, c, g) = set-get p v s s' k typed e in
      rw (here, g) (through neg p.type val v w (λ b. ground (arith, b)) n c)

  abbrev pub TakesNoUnit : Property D O S → Type 0
  TakesNoUnit p =
      ((val : Value D O) (s : S)
        → (set_unit p val [] s ≡ set p val s) × (get_unit p [] s ≡ get p s))
      × ((val : Value D O) (unit : Text) (s : S)
          → unit ≢ []
          → (set_unit p val unit s ≡ throws Error.unit_not_supported)
            × (get_unit p unit s ≡ throws Error.unit_not_supported))

  unmeasured :
      (p : Property D O S) → is_typed p.type ≡ true → is_measured p.type ≡ false → TakesNoUnit p
  unfolding set_unit get_unit
  unmeasured p typed other = (
    λ val s. (rw (other, typed) refl, rw other refl),
    λ val unit s h. (rw (other, typed, differs unit h) refl, rw (other, differs unit h) refl),
  )

  -- A property, not the empty one, whose accessors take no unit is set and read with the empty unit as
  -- it is without unit, and with any other unit not at all, but for the error.
  pub set_unit_lem :
      (p : Property D O S)
      → is_typed p.type ≡ true
      → (is_measured p.type ≡ false) ⊎ ((p.setter_unit ≡ none) × (p.getter_unit ≡ none))
      → TakesNoUnit p
  unfolding set_unit get_unit set_measured get_measured
  set_unit_lem p typed (inl other) = unmeasured p typed other
  set_unit_lem p typed (inr (no_set, no_get)) = elim (Bool-cases (is_measured p.type)) [
    | inr other ↦ unmeasured p typed other
    | inl measured ↦ (
      λ val s. (simp (measured, set_measured, no_set), simp (measured, get_measured, no_get)),
      λ val unit s h. (
        simp (measured, set_measured, no_set, differs unit h),
        simp (measured, get_measured, no_get, differs unit h),
      ),
    )
  ]
