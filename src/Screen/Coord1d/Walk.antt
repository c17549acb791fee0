-- ===== src/Screen/Coord1d/Walk.antt =====
-- What is left of a one-dimensional set of pixels: the abstract view of Screen::Range and
-- Screen::Indices, and the laws by which a client may use them.
use native.Mathlib.Nat.{div-eq-sub-div, div-eq_of_lt}
use gyoto.Prelude.{
  ℕ, zero, suc, ◌+◌, ◌-◌, ◌/◌, ◌%◌, ◌≤◌, ◌<◌, ◌≡◌, refl, ap, true, false, leb, if◌then◌else◌,
  Option, none, some, List, [], ◌∷◌, get_elem?, length, drop, arith, tests, leb→le, ok,
}
use gyoto.Screen.Coord1d.{
  Coord1dSet, range, indices, angles, repeat_angle, size_t_mod, begin, advance, valid, size, deref,
}

-- `n` terms from `a` by steps of `d`.
abbrev pub progression : ℕ → ℕ → ℕ → List ℕ
progression zero a d = []
progression (suc n) a d = a ∷ progression n (a + d) d

-- The number of terms from `cur` to `ma`.
abbrev pub terms : ℕ → ℕ → ℕ → ℕ
terms cur ma d = if leb cur ma then (ma - cur) / d + 1 else 0

abbrev pub buffer : Option (List ℕ) → List ℕ
buffer none = []
buffer (some xs) = xs

terms-suc : (cur ma d : ℕ) → 0 < d → cur ≤ ma → terms cur ma d ≡ suc (terms (cur + d) ma d)
terms-suc cur ma d h k =
    ground (arith, div-eq-sub-div {m = d} {n = ma - cur} h, div-eq_of_lt {n = ma - cur} {m = d})

length-progression : (n a d : ℕ) → length (progression n a d) ≡ n
length-progression zero a d = refl
length-progression (suc n) a d = ap suc (length-progression n (a + d) d)

-- Reading at `i` splits a list there.
drop-cases :
    (i : ℕ) (xs : List ℕ)
    → i < length xs
    → (x : ℕ) × (drop i xs ≡ x ∷ drop (i + 1) xs) × (get_elem? xs i ≡ some x)
drop-cases i [] h = elim h [ ]
drop-cases zero (x ∷ xs) h = (x, refl, refl)
drop-cases (suc i) (x ∷ xs) h =
    let (y, e, r) = drop-cases i xs (omega arith) in (y, ground (arith, e), r)

drop-all : (xs : List ℕ) (i : ℕ) → length xs ≤ i → drop i xs ≡ []
drop-all [] zero h = refl
drop-all [] (suc i) h = refl
drop-all (x ∷ xs) zero h = absurd (omega arith)
drop-all (x ∷ xs) (suc i) h = drop-all xs i (omega arith)

module _ {F : Type 0} where
  -- The pixels from the current one on.
  unfoldable pub rest : Coord1dSet F → List ℕ
  rest (range mi ma d sz cur) = progression (terms cur ma d) cur d
  rest (indices buf sz i) = drop i (buffer buf)
  rest (angles buf sz i) = []
  rest (repeat_angle val sz i) = []

  -- A set of kind pixel whose buffer has the announced size and whose counter cannot wrap.
  abbrev pub IsPixelSet : Coord1dSet F → Type 0
  IsPixelSet (range mi ma d sz cur) =
      (0 < d) × (mi ≤ ma) × (ma + d < size_t_mod) × (sz ≡ terms mi ma d)
  IsPixelSet (indices buf sz i) = (length (buffer buf) ≡ sz) × (sz < size_t_mod) × (i ≤ sz)
  IsPixelSet (angles buf sz i) = ⊥
  IsPixelSet (repeat_angle val sz i) = ⊥

  -- A valid set has a current pixel, and moving on leaves the pixels behind it.
  pub rest-valid :
      (s : Coord1dSet F)
      → IsPixelSet s
      → valid s ≡ true
      → (x : ℕ) × (deref s ≡ ok x) × (rest s ≡ x ∷ rest (advance s)) × IsPixelSet (advance s)
  unfolding rest valid deref advance
  rest-valid (range mi ma d sz cur) p v =
      let inside : cur ≤ ma = leb→le cur ma v in
      let e : (cur + d) % size_t_mod ≡ cur + d = omega arith in
      (cur, refl, rw (e, terms-suc cur ma d p.0 inside) refl, p)
  rest-valid (indices none sz i) p v = absurd (omega tests)
  rest-valid (indices (some xs) sz i) p v =
      let (x, e, r) = drop-cases i xs (omega tests) in
      let next : (i + 1) % size_t_mod ≡ i + 1 = omega tests in
      (x, rw r refl, rw next e, omega tests)
  rest-valid (angles buf sz i) p v = absurd p
  rest-valid (repeat_angle val sz i) p v = absurd p

  -- A set that is not valid has no pixel left.
  pub rest-not_valid : (s : Coord1dSet F) → IsPixelSet s → valid s ≡ false → rest s ≡ []
  unfolding rest valid
  rest-not_valid (range mi ma d sz cur) p v = ground arith
  rest-not_valid (indices buf sz i) p v = drop-all (buffer buf) i (ground arith)
  rest-not_valid (angles buf sz i) p v = absurd p
  rest-not_valid (repeat_angle val sz i) p v = absurd p

  -- `begin` goes back to all the pixels, and `size` counts them.
  pub size-begin : (s : Coord1dSet F) → IsPixelSet s → size s ≡ length (rest (begin s))
  unfolding rest begin size
  size-begin (range mi ma d sz cur) p = ground (arith, length-progression (terms mi ma d) mi d)
  size-begin (indices buf sz i) p = omega arith
  size-begin (angles buf sz i) p = absurd p
  size-begin (repeat_angle val sz i) p = absurd p

  pub begin-IsPixelSet : (s : Coord1dSet F) → IsPixelSet s → IsPixelSet (begin s)
  unfolding begin
  begin-IsPixelSet (range mi ma d sz cur) p = p
  begin-IsPixelSet (indices buf sz i) p = omega arith
  begin-IsPixelSet (angles buf sz i) p = absurd p
  begin-IsPixelSet (repeat_angle val sz i) p = absurd p

  pub begin-advance : (s : Coord1dSet F) → begin (advance s) ≡ begin s
  unfolding begin advance
  begin-advance (range mi ma d sz cur) = refl
  begin-advance (indices buf sz i) = refl
  begin-advance (angles buf sz i) = refl
  begin-advance (repeat_angle val sz i) = refl

  pub begin-begin : (s : Coord1dSet F) → begin (begin s) ≡ begin s
  unfolding begin
  begin-begin (range mi ma d sz cur) = refl
  begin-begin (indices buf sz i) = refl
  begin-begin (angles buf sz i) = refl
  begin-begin (repeat_angle val sz i) = refl
