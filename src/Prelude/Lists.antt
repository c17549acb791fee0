-- ===== src/Prelude/Lists.antt =====
-- Lists measured and indexed by native numbers, under the library's names.
use Prim.Native.Nat.{ℕ, zero, suc, ◌+◌, ◌-◌, ◌≤◌, ◌<◌, min}
use mathlib.Core.Path.{◌≡◌, refl, ap}
use mathlib.Core.Logic.{◌≢◌, ◌⊎◌, inl, inr}
use mathlib.Core.List.{List, [], ◌∷◌, ◌++◌, map}
use mathlib.Core.Option.{Option, none, some}
use native.Mathlib.Omega.{arith}

module _ {ℓ} {A : Type ℓ} where
  abbrev pub length : List A → ℕ
  length [] = 0
  length (x ∷ xs) = suc (length xs)

  abbrev pub get_elem? : List A → ℕ → Option A
  get_elem? [] i = none
  get_elem? (x ∷ xs) zero = some x
  get_elem? (x ∷ xs) (suc i) = get_elem? xs i

  -- A write out of bounds changes nothing.
  abbrev pub set : List A → ℕ → A → List A
  set [] i v = []
  set (x ∷ xs) zero v = v ∷ xs
  set (x ∷ xs) (suc i) v = x ∷ set xs i v

  pub length-append : (xs ys : List A) → length (xs ++ ys) ≡ length xs + length ys
  length-append [] ys = omega arith
  length-append (x ∷ xs) ys = omega (arith, length-append xs ys)

module _ {ℓ} {A : Type ℓ} where
  pub length-set : (xs : List A) (i : ℕ) (v : A) → length (set xs i v) ≡ length xs
  length-set [] i v = refl
  length-set (x ∷ xs) zero v = refl
  length-set (x ∷ xs) (suc i) v = ap suc (length-set xs i v)

  pub get_elem?-set_self :
      (xs : List A) (i : ℕ) (v : A) → i < length xs → get_elem? (set xs i v) i ≡ some v
  get_elem?-set_self [] i v h = elim h [ ]
  get_elem?-set_self (x ∷ xs) zero v h = refl
  get_elem?-set_self (x ∷ xs) (suc i) v h = get_elem?-set_self xs i v (omega arith)

  pub get_elem?-set_ne :
      (xs : List A) {i j : ℕ} (v : A) → i ≢ j → get_elem? (set xs i v) j ≡ get_elem? xs j
  get_elem?-set_ne [] v h = refl
  get_elem?-set_ne (x ∷ xs) {i = zero} {j = zero} v h = absurd (h refl)
  get_elem?-set_ne (x ∷ xs) {i = zero} {j = suc j} v h = refl
  get_elem?-set_ne (x ∷ xs) {i = suc i} {j = zero} v h = refl
  get_elem?-set_ne (x ∷ xs) {i = suc i} {j = suc j} v h = get_elem?-set_ne xs v (λ e. h (ap suc e))

module _ {ℓ} {A : Type ℓ} where
  abbrev pub get_or : List A → ℕ → A → A
  get_or [] i d = d
  get_or (x ∷ xs) zero d = x
  get_or (x ∷ xs) (suc i) d = get_or xs i d

  abbrev pub take : ℕ → List A → List A
  take zero xs = []
  take (suc n) [] = []
  take (suc n) (x ∷ xs) = x ∷ take n xs

  abbrev pub drop : ℕ → List A → List A
  drop zero xs = xs
  drop (suc n) [] = []
  drop (suc n) (x ∷ xs) = drop n xs

  abbrev pub replicate : ℕ → A → List A
  replicate zero a = []
  replicate (suc n) a = a ∷ replicate n a

  pub take-append-drop : (n : ℕ) (xs : List A) → take n xs ++ drop n xs ≡ xs
  take-append-drop zero xs = refl
  take-append-drop (suc n) [] = refl
  take-append-drop (suc n) (x ∷ xs) = rw (take-append-drop n xs)

  pub length-take : (n : ℕ) (xs : List A) → length (take n xs) ≡ min n (length xs)
  length-take zero xs = omega arith
  length-take (suc n) [] = omega arith
  length-take (suc n) (x ∷ xs) = omega (arith, length-take n xs)

  pub length-drop : (n : ℕ) (xs : List A) → length (drop n xs) ≡ length xs - n
  length-drop zero xs = omega arith
  length-drop (suc n) [] = omega arith
  length-drop (suc n) (x ∷ xs) = omega (arith, length-drop n xs)

  pub length-replicate : (n : ℕ) (a : A) → length (replicate n a) ≡ n
  length-replicate zero a = refl
  length-replicate (suc n) a = ap suc (length-replicate n a)

  pub length-map {κ} : {B : Type κ} (xs : List A) (f : A → B) → length (map f xs) ≡ length xs
  length-map [] f = refl
  length-map (x ∷ xs) f = ap suc (length-map xs f)

  pub get_elem?-append_left :
      (xs ys : List A) (i : ℕ) → i < length xs → get_elem? (xs ++ ys) i ≡ get_elem? xs i
  get_elem?-append_left [] ys i h = elim h [ ]
  get_elem?-append_left (x ∷ xs) ys zero h = refl
  get_elem?-append_left (x ∷ xs) ys (suc i) h = get_elem?-append_left xs ys i (omega arith)

  pub get_elem?-append_right :
      (xs ys : List A) (n i : ℕ) → n ≡ length xs + i → get_elem? (xs ++ ys) n ≡ get_elem? ys i
  get_elem?-append_right [] ys n i e = let e' : n ≡ i = omega arith in rw e'
  get_elem?-append_right (x ∷ xs) ys zero i e = absurd (omega arith)
  get_elem?-append_right (x ∷ xs) ys (suc n) i e = get_elem?-append_right xs ys n i (omega arith)

  pub get_elem?-lt : (xs : List A) (i : ℕ) {x : A} → get_elem? xs i ≡ some x → i < length xs
  get_elem?-lt [] i e = cc
  get_elem?-lt (y ∷ xs) zero e = omega arith
  get_elem?-lt (y ∷ xs) (suc i) e = omega (arith, get_elem?-lt xs i e)

  -- An entry of a list with one entry written is the new one or an old one.
  pub get_elem?-set_cases :
      (xs : List A) (i j : ℕ) {v x : A}
      → get_elem? (set xs i v) j ≡ some x
      → ((i ≡ j) × (v ≡ x)) ⊎ ((i ≢ j) × (get_elem? xs j ≡ some x))
  get_elem?-set_cases [] i j e = cc
  get_elem?-set_cases (x ∷ xs) zero zero e = inl (refl, cc)
  get_elem?-set_cases (x ∷ xs) zero (suc j) e = inr (omega arith, e)
  get_elem?-set_cases (x ∷ xs) (suc i) zero e = inr (omega arith, e)
  get_elem?-set_cases (x ∷ xs) (suc i) (suc j) e = elim (get_elem?-set_cases xs i j e) [
    | inl (p, q) ↦ inl (ap suc p, q)
    | inr (p, q) ↦ inr (omega arith, q)
  ]

  pub get_elem?-unique :
      (xs : List A) (i j : ℕ) {x y : A}
      → get_elem? xs i ≡ some x
      → get_elem? xs j ≡ some y
      → i ≡ j
      → x ≡ y
  get_elem?-unique xs i j e f same = cc

  pub drop-eq_cons :
      (n : ℕ) (xs : List A) {x : A} {ys : List A}
      → drop n xs ≡ x ∷ ys
      → (get_elem? xs n ≡ some x) × (drop (n + 1) xs ≡ ys) × (n < length xs)
  drop-eq_cons zero [] e = cc
  drop-eq_cons zero (x ∷ xs) e = (cc, ground (arith, e), omega arith)
  drop-eq_cons (suc n) [] e = cc
  drop-eq_cons (suc n) (x ∷ xs) e =
      let (g, d, lt) = drop-eq_cons n xs e in (g, ground (arith, d), omega arith)

  pub drop-eq_nil : (n : ℕ) (xs : List A) → drop n xs ≡ [] → length xs ≤ n
  drop-eq_nil zero [] e = omega arith
  drop-eq_nil zero (x ∷ xs) e = cc
  drop-eq_nil (suc n) [] e = omega arith
  drop-eq_nil (suc n) (x ∷ xs) e = omega (arith, drop-eq_nil n xs e)

  pub get_elem?-replicate :
      (n : ℕ) (a : A) (i : ℕ) {x : A} → get_elem? (replicate n a) i ≡ some x → a ≡ x
  get_elem?-replicate zero a i e = cc
  get_elem?-replicate (suc n) a zero e = cc
  get_elem?-replicate (suc n) a (suc i) e = get_elem?-replicate n a i e

  pub get_elem?-none : (xs : List A) (i : ℕ) → length xs ≤ i → get_elem? xs i ≡ none
  get_elem?-none [] i h = refl
  get_elem?-none (x ∷ xs) zero h = absurd (omega arith)
  get_elem?-none (x ∷ xs) (suc i) h = get_elem?-none xs i (omega arith)

  pub get_elem?-some : (xs : List A) (i : ℕ) → i < length xs → (x : A) × (get_elem? xs i ≡ some x)
  get_elem?-some [] i h = elim h [ ]
  get_elem?-some (x ∷ xs) zero h = (x, refl)
  get_elem?-some (x ∷ xs) (suc i) h = get_elem?-some xs i (omega arith)

  -- An index into two lists in a row is one into the first or into the second.
  pub get_elem?-append_cases :
      (xs ys : List A) (k : ℕ) {c : A}
      → get_elem? (xs ++ ys) k ≡ some c
      → (get_elem? xs k ≡ some c) ⊎ ((j : ℕ) × (get_elem? ys j ≡ some c))
  get_elem?-append_cases [] ys k e = inr (k, e)
  get_elem?-append_cases (x ∷ xs) ys zero e = inl e
  get_elem?-append_cases (x ∷ xs) ys (suc k) e = get_elem?-append_cases xs ys k e
