-- ===== src/Object/Lookup.antt =====
-- The property that a name stands for.
use gyoto.Prelude.{
  ℕ, zero, suc, ◌≡◌, ◌<◌, inl, inr, refl, true, false, Bool-cases, if◌then◌else◌, Option, none,
  some, List, [], ◌∷◌, get_elem?, Text, arith,
}
use gyoto.Object.{Property, Properties, null, item, is_item, answers, property}

module _ {D O S : Type 0} where
  -- The properties of a class and then those of its ancestors.
  abbrev pub visible : Properties D O S → List (Property D O S)
  visible null = []
  visible (item p next parent) = if is_item p then p ∷ visible next else visible parent

  -- The first of a list that answers to a name.
  pub record IsFirst (ps : List (Property D O S)) (pname : Text) (p : Property D O S) : Type 0 where
    pub index : ℕ
    pub found : get_elem? ps index ≡ some p
    pub answering : answers pname p ≡ true
    pub first :
        (j : ℕ) (q : Property D O S) → j < index → get_elem? ps j ≡ some q → answers pname q ≡ false

  abbrev pub NoneAnswers : List (Property D O S) → Text → Type 0
  NoneAnswers ps pname =
      (j : ℕ) (q : Property D O S) → get_elem? ps j ≡ some q → answers pname q ≡ false

  abbrev pub Looked : List (Property D O S) → Text → Option (Property D O S) → Type 0
  Looked ps pname none = NoneAnswers ps pname
  Looked ps pname (some p) = IsFirst ps pname p

  Looked-here :
      (p : Property D O S) (ps : List (Property D O S)) (pname : Text)
      → answers pname p ≡ true
      → Looked (p ∷ ps) pname (some p)
  Looked-here p ps pname yes_p = record {
    index = 0;
    found = refl;
    answering = yes_p;
    first = λ j q lt e. absurd (omega arith);
  }

  first_past :
      (p : Property D O S) (ps : List (Property D O S)) (pname : Text)
      → answers pname p ≡ false
      → (bound : ℕ)
      → ((j : ℕ) (q : Property D O S)
          → j < bound
          → get_elem? ps j ≡ some q
          → answers pname q ≡ false)
      → (j : ℕ) (q : Property D O S) → j < suc bound
      → get_elem? (p ∷ ps) j ≡ some q
      → answers pname q ≡ false
  first_past p ps pname no_p bound rest zero q lt e =
      let same_one : p ≡ q = cc in rw⁻¹ same_one no_p
  first_past p ps pname no_p bound rest (suc j) q lt e = rest j q (omega arith) e

  Looked-past :
      (p : Property D O S) (ps : List (Property D O S)) (pname : Text) (r : Option (Property D O S))
      → answers pname p ≡ false
      → Looked ps pname r
      → Looked (p ∷ ps) pname r
  Looked-past p ps pname none no_p l = past
    where
      past : NoneAnswers (p ∷ ps) pname
      past zero q e = let same_one : p ≡ q = cc in rw⁻¹ same_one no_p
      past (suc j) q e = l j q e
  Looked-past p ps pname (some r) no_p l = record {
    index = suc l.index;
    found = l.found;
    answering = l.answering;
    first = first_past p ps pname no_p l.index l.first;
  }

  -- property(name) gives the first property, in the order of a class and then its ancestors, that has
  -- the name or, being a bool, has it as its name for false; and null where there is none.
  pub property_lem :
      (props : Properties D O S) (pname : Text)
      → Looked (visible props) pname (property props pname)
  property_lem null pname = λ j q e. cc
  property_lem (item p next parent) pname = elim (Bool-cases (is_item p)) [
    | inr link ↦ rw link (property_lem parent pname)
    | inl entry ↦ elim (Bool-cases (answers pname p)) [
      | inl yes_p ↦ rw (entry, yes_p) (Looked-here p (visible next) pname yes_p)
      | inr no_p ↦
          rw (entry, no_p)
            (Looked-past p (visible next) pname (property next pname) no_p
              (property_lem next pname))
    ]
  ]
