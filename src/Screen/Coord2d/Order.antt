-- ===== src/Screen/Coord2d/Order.antt =====
-- The order in which Screen::Grid runs through its pixels, in closed form.
use mathlib.Core.Path.{ap₂}
use native.Mathlib.Nat.{mod-eq_of_lt}
use gyoto.Prelude.{
  ℕ, zero, suc, ◌+◌, ◌*◌, ◌<◌, ◌≡◌, refl, ap, ◌∙◌, true, false, inl, inr, some, List, [], ◌∷◌,
  get_elem?, get_elem?-lt, get_elem?-append_left, get_elem?-append_right, length, length-append,
  Bool-cases, arith, ok,
}
use gyoto.Screen.Coord1d
use gyoto.Screen.Coord1d.{Coord1dSet, size_t_mod}
use gyoto.Screen.Coord1d.Walk as Walk1d
use gyoto.Screen.Coord1d.Walk.{IsPixelSet}
use gyoto.Screen.Coord2d.{Coord2dSet, grid, begin, valid, size, advance, deref}
use gyoto.Screen.Coord2d.Walk.{
  IsPixelSets, row, rows, rest, rest-valid, rest-not_valid, rest-begin, begin-IsPixelSets,
}

length-row : (is : List ℕ) (j : ℕ) → length (row is j) ≡ length is
length-row [] j = refl
length-row (i ∷ is) j = omega (arith, length-row is j)

pub length-rows : (is js : List ℕ) → length (rows is js) ≡ length is * length js
length-rows is [] = omega arith
length-rows is (j ∷ js) =
    omega (arith, length-append (row is j) (rows is js), length-row is j, length-rows is js)

get_elem?-row :
    (is : List ℕ) (j i : ℕ) {x : ℕ} → get_elem? is i ≡ some x → get_elem? (row is j) i ≡ some (x, j)
get_elem?-row [] j i e = cc
get_elem?-row (k ∷ is) j zero e = ground (arith, e)
get_elem?-row (k ∷ is) j (suc i) e = get_elem?-row is j i e

-- Entry `j * w + i` of the rows is the pixel of column `i` and row `j`, for rows of `w` pixels.
get_elem?-rows :
    (is js : List ℕ) (i j k : ℕ) {x y : ℕ}
    → k ≡ j * length is + i
    → get_elem? is i ≡ some x
    → get_elem? js j ≡ some y
    → get_elem? (rows is js) k ≡ some (x, y)
get_elem?-rows is [] i j k e hi hj = cc
get_elem?-rows is (y' ∷ js) i zero k e hi hj =
    let e' : k ≡ i = omega arith in
    rw e' (
      get_elem?-append_left (row is y') (rows is js) i
        (omega (arith, length-row is y', get_elem?-lt is i hi))
      ∙ get_elem?-row is y' i hi
      ∙ ground (arith, hj))
get_elem?-rows is (y' ∷ js) i (suc j) k e hi hj =
    get_elem?-append_right (row is y') (rows is js) k (j * length is + i)
      (omega (arith, length-row is y'))
    ∙ get_elem?-rows is js i j (j * length is + i) refl hi hj

module _ {F : Type 0} where
  -- `k` calls of operator++
  abbrev pub advance_by : ℕ → Coord2dSet F → Coord2dSet F
  advance_by zero s = s
  advance_by (suc k) s = advance_by k (advance s)

  pub advance_by-rest :
      (k : ℕ) (s : Coord2dSet F) {p : ℕ × ℕ}
      → IsPixelSets s
      → get_elem? (rest s) k ≡ some p
      → (valid (advance_by k s) ≡ true) × (deref (advance_by k s) ≡ ok p)
  advance_by-rest zero s h e = elim (Bool-cases (valid s)) [
    | inl v ↦ let (_, d, r, _) = rest-valid s h v in (v, ground (arith, d, rw r at e))
    | inr v ↦ absurd (omega (arith, get_elem?-lt (rest s) 0 e, ap length (rest-not_valid s h v)))
  ]
  advance_by-rest (suc k) s h e = elim (Bool-cases (valid s)) [
    | inl v ↦ let (_, _, r, h') = rest-valid s h v in advance_by-rest k (advance s) h' (rw r at e)
    | inr v ↦
        absurd (omega (arith, get_elem?-lt (rest s) (suc k) e, ap length (rest-not_valid s h v)))
  ]

  pub advance_by-end :
      (k : ℕ) (s : Coord2dSet F)
      → IsPixelSets s
      → length (rest s) ≡ k
      → valid (advance_by k s) ≡ false
  advance_by-end zero s h e = elim (Bool-cases (valid s)) [
    | inl v ↦ let (_, _, r, _) = rest-valid s h v in absurd (omega (arith, ap length r))
    | inr v ↦ v
  ]
  advance_by-end (suc k) s h e = elim (Bool-cases (valid s)) [
    | inl v ↦
        let (_, _, r, h') = rest-valid s h v in
        advance_by-end k (advance s) h' (omega (arith, ap length r))
    | inr v ↦ absurd (omega (arith, ap length (rest-not_valid s h v)))
  ]

  -- The pixels of a one-dimensional set, in order.
  abbrev pub pixels : Coord1dSet F → List ℕ
  pixels s = Walk1d.rest (Coord1d.begin s)

  -- A grid of two sets of pixels runs along its rows: after `begin` and `k` steps of operator++ it is
  -- valid and gives column `i` of row `j` for `k = j * iset.size() + i`, it stops being valid after
  -- exactly as many steps as the product of the two sizes, and that product, when it fits a size_t,
  -- is what size() returns.
  pub grid_order :
      (iset jset : Coord1dSet F)
      → IsPixelSet iset
      → IsPixelSet jset
      → Coord1d.size iset * Coord1d.size jset < size_t_mod
      → let g = grid iset jset in
        ((i j x y : ℕ)
          → get_elem? (pixels iset) i ≡ some x
          → get_elem? (pixels jset) j ≡ some y
          → let s = advance_by (j * Coord1d.size iset + i) (begin g) in
            (valid s ≡ true) × (deref s ≡ ok (x, y)))
        × (valid (advance_by (size g) (begin g)) ≡ false)
        × (size g ≡ length (pixels iset) * length (pixels jset))
  unfolding size
  grid_order iset jset pi pj fits =
      let wi = Walk1d.size-begin iset pi in
      let wj = Walk1d.size-begin jset pj in
      let h = begin-IsPixelSets iset jset pi pj in
      let r = rest-begin iset jset in
      let n : size (grid iset jset) ≡ length (pixels iset) * length (pixels jset) =
        mod-eq_of_lt fits ∙ ap₂ ◌*◌ wi wj in
      (
        λ i j x y hi hj.
            let k = j * Coord1d.size iset + i in
            let k_eq : k ≡ j * length (pixels iset) + i = ap (λ w. j * w + i) wi in
            advance_by-rest k (begin (grid iset jset)) h
              (rw r (get_elem?-rows (pixels iset) (pixels jset) i j k k_eq hi hj)),
        advance_by-end (size (grid iset jset)) (begin (grid iset jset)) h
            (rw (r, n) (length-rows (pixels iset) (pixels jset))),
        n,
      )
