-- ===== src/Utils/Split/Join.antt =====
-- split gives the pieces of a text, and joined pieces come back.
use gyoto.Prelude.{
  ℕ, zero, suc, ◌+◌, ◌-◌, ◌≡◌, ◌≤◌, ◌<◌, refl, sym, ap, subst, ◌∙◌, inl, inr, true, false,
  Bool-cases, ◌==◌, ==_iff, ltb, Option, none, some, List, [], ◌∷◌, ◌++◌, length, take, drop, Text,
  find_first_of, has_char, arith, tests, drop-eq_nil, length-take, length-drop, ◌≢◌, ℕ_discrete,
}
use gyoto.Utils.Split.{split, split_loop, split_round}
use gyoto.Utils.Split.Pieces.{Free, Pieces, finish, skip, piece_at, append_nil, Pieces-unique}

-- The pieces with the first delimiter between them, as Object::fillElement writes the plug-ins.
abbrev pub join : ℕ → List Text → Text
join d [] = []
join d (p ∷ []) = p
join d (p ∷ ps) = p ++ (d ∷ join d ps)

module _ (delim : Text) where
  -- What find_first_of finds from an index on.
  abbrev Found : Text → ℕ → Option ℕ → Type 0
  Found src pos none = Free delim (drop pos src)
  Found src pos (some fpos) =
      (n : ℕ) × (fpos ≡ pos + n)
      × (fpos < length src)
      × Free delim (take n (drop pos src))
      × (c : ℕ) × (has_char c delim ≡ true)
      × (drop pos src ≡ take n (drop pos src) ++ (c ∷ drop (fpos + 1) src))

  abbrev later : Option ℕ → Option ℕ
  later none = none
  later (some k) = some (suc k)

  drop-suc : (c : ℕ) (cs : Text) (k : ℕ) → drop (k + 1) cs ≡ drop (suc k + 1) (c ∷ cs)
  drop-suc c cs k = let e : suc k + 1 ≡ suc (k + 1) = omega arith in rw e refl

  Found-later :
      (c : ℕ) (cs : Text) (pos : ℕ) (r : Option ℕ)
      → Found cs pos r
      → Found (c ∷ cs) (suc pos) (later r)
  Found-later c cs pos none f = f
  Found-later c cs pos (some k) (n, e, lt, f, d, yes_d, g) = (
    n,
    omega arith,
    omega arith,
    f,
    d,
    yes_d,
    g ∙ ap (λ t. take n (drop pos cs) ++ (d ∷ t)) (drop-suc c cs k),
  )

  Found-first :
      (c : ℕ) (cs : Text) (r : Option ℕ)
      → has_char c delim ≡ false
      → Found cs 0 r
      → Found (c ∷ cs) 0 (later r)
  Found-first c cs none no_c f = (no_c, f)
  Found-first c cs (some k) no_c (n, e, lt, f, d, yes_d, g) = (
    suc n,
    omega arith,
    omega arith,
    (no_c, f),
    d,
    yes_d,
    ap (λ t. c ∷ t) g ∙ ap (λ t. c ∷ (take n cs ++ (d ∷ t))) (drop-suc c cs k),
  )

  find_first_of_lem : (src : Text) (pos : ℕ) → Found src pos (find_first_of src delim pos)
  find_first_of_lem [] zero = tt
  find_first_of_lem [] (suc pos) = tt
  find_first_of_lem (c ∷ cs) zero = elim (Bool-cases (has_char c delim)) [
    | inl yes_c ↦ rw yes_c (0, refl, omega arith, tt, c, yes_c, refl)
    | inr no_c ↦ rw no_c (Found-first c cs (find_first_of cs delim 0) no_c (find_first_of_lem cs 0))
  ]
  find_first_of_lem (c ∷ cs) (suc pos) =
      Found-later c cs pos (find_first_of cs delim pos) (find_first_of_lem cs pos)

  take_some : (n pos : ℕ) (src : Text) → 0 < n → pos < length src → take n (drop pos src) ≡ [] → ⊥
  take_some n pos src some_n within e =
      let z : length (take n (drop pos src)) ≡ 0 = ap length e in
      omega (arith, length-take n (drop pos src), length-drop pos src)

  -- What the rest of the loop is trusted with.
  abbrev Rest : (ℕ → List Text) → Text → ℕ → Type 0
  Rest rest src pos = (k : ℕ) → pos < k → Pieces delim (drop k src) (rest k)

  drop-nil : (pos : ℕ) (src : Text) → length src ≤ pos → drop pos src ≡ []
  drop-nil zero [] past = refl
  drop-nil zero (c ∷ cs) past = absurd (omega arith)
  drop-nil (suc pos) [] past = refl
  drop-nil (suc pos) (c ∷ cs) past = drop-nil pos cs (omega arith)

  skip_at :
      (rest : ℕ → List Text) (src : Text) (pos fpos d : ℕ)
      → Rest rest src pos
      → fpos ≡ pos
      → has_char d delim ≡ true
      → drop pos src ≡ d ∷ drop (fpos + 1) src
      → Pieces delim (drop pos src) (rest (pos + 1))
  skip_at rest src pos fpos d ih same yes_d g =
      let e : drop pos src ≡ d ∷ drop (pos + 1) src =
        subst (λ k. drop pos src ≡ d ∷ drop (k + 1) src) same g in
      subst (λ t. Pieces delim t (rest (pos + 1))) (sym e) (skip yes_d (ih (pos + 1) (omega arith)))

  split_round_lem :
      (rest : ℕ → List Text) (src : Text) (pos : ℕ) (r : Option ℕ)
      → Rest rest src pos
      → pos < length src
      → Found src pos r
      → Pieces delim (drop pos src) (split_round rest src pos r)
  split_round_lem rest src pos none ih within f =
      piece_at delim (drop pos src) (drop pos src) (append_nil delim (drop pos src))
        (λ e. omega (arith, drop-eq_nil pos src e)) f tt finish
  split_round_lem rest src pos (some fpos) ih within (n, e, lt, f, d, yes_d, g) =
      elim (ℕ_discrete fpos pos) [
        | yes same ↦
            let z : n ≡ 0 = omega arith in
            let g' : drop pos src ≡ take 0 (drop pos src) ++ (d ∷ drop (fpos + 1) src) =
              subst (λ k. drop pos src ≡ take k (drop pos src) ++ (d ∷ drop (fpos + 1) src)) z g in
            rw ((==_iff fpos pos).1 same) (skip_at rest src pos fpos d ih same yes_d g')
        | no ne ↦
            let n_is : fpos - pos ≡ n = omega arith in
            let differs : (fpos == pos) ≡ false = ground arith in
            rw (differs, n_is)
              (piece_at delim (drop pos src) (take n (drop pos src)) g
                (take_some n pos src (omega arith) within) f yes_d
                (skip yes_d (ih (fpos + 1) (omega arith))))
      ]

  done_at : (src : Text) (pos : ℕ) → length src ≤ pos → Pieces delim (drop pos src) []
  done_at src pos past = subst (λ t. Pieces delim t []) (sym (drop-nil pos src past)) finish

  split_loop_lem :
      (fuel : ℕ) (src : Text) (pos : ℕ)
      → length src ≤ pos + fuel
      → Pieces delim (drop pos src) (split_loop fuel src delim pos)
  unfolding split_loop
  split_loop_lem zero src pos enough = done_at src pos (omega arith)
  split_loop_lem (suc fuel) src pos enough = elim (Bool-cases (ltb pos (length src))) [
    | inr past ↦ rw past (done_at src pos (ground arith))
    | inl within ↦ rw within (
        split_round_lem (split_loop fuel src delim) src pos (find_first_of src delim pos)
          (λ k more. split_loop_lem fuel src k (omega arith)) (omega tests)
          (find_first_of_lem src pos))
  ]

  -- split gives the pieces of the text between delimiters, which are never empty: the only list of
  -- texts that satisfies the description by `Pieces`.
  pub split_lem :
      (src : Text)
      → Pieces delim src (split src delim)
        × ((ps : List Text) → Pieces delim src ps → ps ≡ split src delim)
  unfolding split
  split_lem src =
      let p = split_loop_lem (length src) src 0 (omega arith) in
      (p, λ ps q. Pieces-unique delim q p refl)

  abbrev pub AllFree : List Text → Type 0
  AllFree [] = Unit
  AllFree (p ∷ ps) = Free delim p × (p ≢ []) × AllFree ps

  join-Pieces :
      (d : ℕ) (ps : List Text) → has_char d delim ≡ true → AllFree ps → Pieces delim (join d ps) ps
  join-Pieces d [] yes_d a = finish
  join-Pieces d (p ∷ []) yes_d a = piece_at delim p p (append_nil delim p) a.1 a.0 tt finish
  join-Pieces d (p ∷ q ∷ ps) yes_d a =
      piece_at delim (p ++ (d ∷ join d (q ∷ ps))) p refl a.1 a.0 yes_d
        (skip yes_d (join-Pieces d (q ∷ ps) yes_d a.2))

  -- Texts that are not empty and have no delimiter in them, joined by a delimiter, come back from
  -- split.
  pub split-join :
      (d : ℕ) (ps : List Text) → has_char d delim ≡ true → AllFree ps → split (join d ps) delim ≡ ps
  split-join d ps yes_d a = sym ((split_lem (join d ps)).1 ps (join-Pieces d ps yes_d a))
