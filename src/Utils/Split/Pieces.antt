-- ===== src/Utils/Split/Pieces.antt =====
-- What the pieces of a text are.
use gyoto.Prelude.{ℕ, ◌≡◌, refl, sym, ap, subst, true, false, List, [], ◌∷◌, ◌++◌, Text, has_char}

cons_eq {ℓ} : {A : Type ℓ} {x y : A} {xs ys : List A} → x ≡ y → xs ≡ ys → x ∷ xs ≡ y ∷ ys
cons_eq e f = cc

module _ (delim : Text) where
  -- No character of the text is a delimiter.
  abbrev pub Free : Text → Type 0
  Free [] = Unit
  Free (c ∷ cs) = (has_char c delim ≡ false) × Free cs

  -- The text is at its end or at a delimiter.
  abbrev pub AtBreak : Text → Type 0
  AtBreak [] = Unit
  AtBreak (c ∷ cs) = has_char c delim ≡ true

  -- The pieces of a text: what stands between delimiters, each as long as it can be, and none empty.
  pub data Pieces : Text → List Text → Type 0 where
    finish : Pieces [] []
    skip :
        {c : ℕ} {t : Text} {ps : List Text}
        → has_char c delim ≡ true
        → Pieces t ps
        → Pieces (c ∷ t) ps
    piece :
        {c : ℕ} {p rest : Text} {ps : List Text}
        → Free (c ∷ p)
        → AtBreak rest
        → Pieces rest ps
        → Pieces (c ∷ (p ++ rest)) ((c ∷ p) ∷ ps)

  same_run :
      (p q : Text) {rest rest' : Text}
      → Free p
      → Free q
      → AtBreak rest
      → AtBreak rest'
      → p ++ rest ≡ q ++ rest'
      → (p ≡ q) × (rest ≡ rest')
  same_run [] [] f g a b e = (refl, e)
  same_run [] (d ∷ q) {rest = []} f g a b e = cc
  same_run [] (d ∷ q) {rest = c ∷ rest} f g a b e = cc
  same_run (c ∷ p) [] {rest' = []} f g a b e = cc
  same_run (c ∷ p) [] {rest' = d ∷ rest} f g a b e = cc
  same_run (c ∷ p) (d ∷ q) f g a b e =
      let tails : p ++ _ ≡ q ++ _ = cc in
      let (u, v) = same_run p q f.1 g.1 a b tails in (cons_eq (cc) u, v)

  clash :
      {c d : ℕ} {s t : Text}
      → has_char c delim ≡ true
      → has_char d delim ≡ false
      → c ∷ s ≡ d ∷ t
      → ⊥
  clash yes_c no_d e = cc

  -- A text has just one list of pieces.
  pub Pieces-unique : {s t : Text} {ps qs : List Text} → Pieces s ps → Pieces t qs → s ≡ t → ps ≡ qs
  Pieces-unique finish finish e = refl
  Pieces-unique finish (skip d b) e = cc
  Pieces-unique finish (piece f a b) e = cc
  Pieces-unique (skip d a) finish e = cc
  Pieces-unique (skip d a) (skip d' b) e = Pieces-unique a b cc
  Pieces-unique (skip d a) (piece f r b) e = absurd (clash d f.0 e)
  Pieces-unique (piece f r a) finish e = cc
  Pieces-unique (piece f r a) (skip d b) e = absurd (clash d f.0 (sym e))
  Pieces-unique (piece {p = p} f r a) (piece {p = p'} g q b) e =
      let (u, v) = same_run p p' f.1 g.1 r q cc in cons_eq (cons_eq (cc) u) (Pieces-unique a b v)

  -- The rest of a text, from the end of its first piece on.
  pub piece_at :
      (t p : Text) {rest : Text} {ps : List Text}
      → t ≡ p ++ rest
      → (p ≡ [] → ⊥)
      → Free p
      → AtBreak rest
      → Pieces rest ps
      → Pieces t (p ∷ ps)
  piece_at t [] e some_p f a r = absurd (some_p refl)
  piece_at t (c ∷ p) {ps = ps} e some_p f a r =
      subst (λ s. Pieces s ((c ∷ p) ∷ ps)) (sym e) (piece f a r)

  pub append_nil : (t : Text) → t ≡ t ++ []
  append_nil [] = refl
  append_nil (c ∷ cs) = ap (λ t. c ∷ t) (append_nil cs)
