-- ===== src/Astrobj/Properties/Cells.antt =====
-- The cells of different pixels and of different quantities do not meet.
use native.Mathlib.Nat.{mul-le-mul_right}
use gyoto.Prelude.{
  ℕ, zero, suc, ◌+◌, ◌*◌, ◌≡◌, ◌≢◌, ◌≤◌, ◌<◌, ◌⊎◌, inl, inr, refl, sym, ap, subst, ◌∙◌, Option,
  none, some, List, [], get_elem?, arith,
}
use gyoto.Scenery.Quantities.{Quantity}
use gyoto.Astrobj.Properties.{
  Properties, Shape, scalar, spectral, vector, shape, spaced, places, touched, stride, advance,
}

Quantity-discrete : Discrete Quantity
Quantity-discrete = hlevel

some-injective : {a b : ℕ} → some a ≡ some b → a ≡ b
some-injective e = cc

-- The number of values of a quantity for each pixel.
abbrev pub size : Shape → ℕ → ℕ
size scalar n = 1
size spectral n = n
size vector n = 16

-- The arrays of different quantities, for `npix` pixels, do not overlap.
abbrev pub IsApart : ℕ → ℕ → Properties → Type 0
IsApart n npix p =
    (q q' : Quantity) (a a' : ℕ)
    → q ≢ q'
    → p.pointer q ≡ some a
    → p.pointer q' ≡ some a'
    → (a + size (shape q) n * npix ≤ a') ⊎ (a' + size (shape q') n * npix ≤ a)

pub get_elem?-spaced :
    (a step n k : ℕ) {x : ℕ} → get_elem? (spaced a step n) k ≡ some x → (k < n) × (x ≡ a + k * step)
get_elem?-spaced a step zero k e = cc
get_elem?-spaced a step (suc n) zero e = (omega arith, ground (arith, e))
get_elem?-spaced a step (suc n) (suc k) e =
    let (lt, at) = get_elem?-spaced (a + step) step n k e in (omega arith, grind arith)

same_row : (c c' m i j : ℕ) → i < m → j < m → c < c' → i + c * m < j + c' * m
same_row c c' m i j h k less =
    let rows : (c + 1) * m ≤ c' * m = mul-le-mul_right m (omega arith) in
    let next : (c + 1) * m ≡ c * m + m = grind arith in omega arith

trichotomy : (a b : ℕ) → (a < b) ⊎ ((a ≡ b) ⊎ (b < a))
trichotomy a b = grind arith

column_unique : (c c' m i j : ℕ) → i < m → j < m → i + c * m ≡ j + c' * m → i ≡ j
column_unique c c' m i j h k e = elim (trichotomy c c') [
  | inl less ↦ absurd (omega (arith, same_row c c' m i j h k less))
  | inr (inl same) ↦ let rows : c * m ≡ c' * m = ap (λ (t : ℕ). t * m) same in omega arith
  | inr (inr more) ↦ absurd (omega (arith, same_row c' c m j i k h more))
]

in_rows : (c n m i : ℕ) → c < n → i < m → i + c * m < n * m
in_rows c n m i h k = grind arith

-- Where the values of pixel `i` stand, from the start `a` of the array on.
Place : Shape → ℕ → ℕ → ℕ → ℕ → Type 0
Place scalar n npix i off = off ≡ i
Place spectral n npix i off = (c : ℕ) × (c < n) × (off ≡ i + c * npix)
Place vector n npix i off = (c : ℕ) × (c < 16) × (off ≡ 16 * i + c)

places-Place :
    (sh : Shape) (n npix i a k : ℕ) {x : ℕ}
    → get_elem? (places sh n npix (a + stride sh * i)) k ≡ some x
    → (off : ℕ) × (x ≡ a + off) × Place sh n npix i off
unfolding Place
places-Place scalar n npix i a zero e = (i, ground (arith, e), refl)
places-Place scalar n npix i a (suc k) e = cc
places-Place spectral n npix i a k e =
    let (lt, at) = get_elem?-spaced (a + 1 * i) npix n k e in
    (i + k * npix, omega arith, (k, lt, refl))
places-Place vector n npix i a k e =
    let (lt, at) = get_elem?-spaced (a + 16 * i) 1 16 k e in
    (16 * i + k, omega arith, (k, lt, refl))

Place-lt :
    (sh : Shape) (n npix i off : ℕ) → i < npix → Place sh n npix i off → off < size sh n * npix
unfolding Place
Place-lt scalar n npix i off h e = omega arith
Place-lt spectral n npix i off h (c, lt, e) = omega (arith, in_rows c n npix i lt h)
Place-lt vector n npix i off h (c, lt, e) = omega arith

Place-unique :
    (sh : Shape) (n npix i j off : ℕ)
    → i < npix
    → j < npix
    → Place sh n npix i off
    → Place sh n npix j off
    → i ≡ j
unfolding Place
Place-unique scalar n npix i j off h k e f = omega arith
Place-unique spectral n npix i j off h k (c, lt, e) (c', lt', f) =
    column_unique c c' npix i j h k (sym e ∙ f)
Place-unique vector n npix i j off h k (c, lt, e) (c', lt', f) = omega arith

moved : Shape → ℕ → Option ℕ → Option ℕ
moved sh i o = elim o [ none ↦ none | some a ↦ some (a + stride sh * i) ]

from_pointer :
    (o : Option ℕ) (sh : Shape) (n npix offset i k : ℕ) {x : ℕ}
    → offset ≡ npix
    → get_elem?
        (elim (moved sh i o) as (λ m. List ℕ) [ none ↦ [] | some a ↦ places sh n offset a ])
        k
      ≡ some x
    → (a off : ℕ) × (o ≡ some a) × (x ≡ a + off) × Place sh n npix i off
unfolding moved
from_pointer none sh n npix offset i k stride_is e = cc
from_pointer (some a) sh n npix offset i k {x} stride_is e =
    let e' : get_elem? (places sh n npix (a + stride sh * i)) k ≡ some x =
      subst (λ t. get_elem? (places sh n t (a + stride sh * i)) k ≡ some x) stride_is e in
    let (off, at, place) = places-Place sh n npix i a k e' in (a, off, refl, at, place)

touched-Place :
    (n npix i : ℕ) (p : Properties) (q : Quantity) (k : ℕ) {x : ℕ}
    → p.offset ≡ npix
    → get_elem? (touched n (advance i p) q) k ≡ some x
    → (a off : ℕ) × (p.pointer q ≡ some a) × (x ≡ a + off) × Place (shape q) n npix i off
unfolding advance moved
touched-Place n npix i p q k {x} stride_is e =
    from_pointer (p.pointer q) (shape q) n npix p.offset i k stride_is e

-- With arrays for npix pixels that do not overlap, an offset of npix, and two pixels i and j below npix:
-- if i and j or the quantities q and q' differ, no address that q has after operator+=(i) is one that q'
-- has after operator+=(j).
pub cells_apart :
    (n npix i j : ℕ) (p : Properties) (q q' : Quantity) (k k' x x' : ℕ)
    → IsApart n npix p
    → p.offset ≡ npix
    → i < npix
    → j < npix
    → (i ≢ j) ⊎ (q ≢ q')
    → get_elem? (touched n (advance i p) q) k ≡ some x
    → get_elem? (touched n (advance j p) q') k' ≡ some x'
    → x ≢ x'
cells_apart n npix i j p q q' k k' x x' apart step lt lt' differ e e' same =
    let (a, off, ptr, at, place) = touched-Place n npix i p q k step e in
    let (a', off', ptr', at', place') = touched-Place n npix j p q' k' step e' in
    let low = Place-lt (shape q) n npix i off lt place in
    let low' = Place-lt (shape q') n npix j off' lt' place' in
    elim (Quantity-discrete q q') [
      | no other ↦ elim (apart q q' a a' other ptr ptr') [
        | inl before ↦ absurd (omega arith)
        | inr after ↦ absurd (omega arith)
      ]
      | yes one ↦
          let ptr_a : p.pointer q ≡ some a' = subst (λ t. p.pointer t ≡ some a') (sym one) ptr' in
          let starts : a ≡ a' = some-injective (sym ptr ∙ ptr_a) in
          let offs : off' ≡ off = omega arith in
          let place'' : Place (shape q) n npix j off =
            subst (λ o. Place (shape q) n npix j o) offs
              (subst (λ t. Place (shape t) n npix j off') (sym one) place') in
          let pixels : i ≡ j = Place-unique (shape q) n npix i j off lt lt' place place'' in
          elim differ [ inl other ↦ other pixels | inr other ↦ other one ]
    ]
