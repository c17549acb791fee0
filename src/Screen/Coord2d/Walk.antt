-- ===== src/Screen/Coord2d/Walk.antt =====
-- What is left of a Grid or a Bucket of pixels while it is walked through.
use gyoto.Prelude.{
  ℕ, ◌≡◌, refl, ◌∙◌, true, false, List, [], ◌∷◌, ◌++◌, Bool-cases, inl, inr, arith, ok,
}
use gyoto.Screen.Coord1d
use gyoto.Screen.Coord1d.{Coord1dSet, size_t_mod}
use gyoto.Screen.Coord1d.Walk as Walk1d
use gyoto.Screen.Coord1d.Walk.{IsPixelSet}
use gyoto.Screen.Coord2d.{Coord2dSet, grid, bucket, empty, begin, valid, advance, deref}

-- A row of a grid, and the rows of the given ordinates one after the other.
abbrev pub row : List ℕ → ℕ → List (ℕ × ℕ)
row [] j = []
row (i ∷ is) j = (i, j) ∷ row is j

abbrev pub rows : List ℕ → List ℕ → List (ℕ × ℕ)
rows is [] = []
rows is (j ∷ js) = row is j ++ rows is js

-- A walk that stands at some point of the first row.
abbrev pub from_row : List ℕ → List ℕ → List ℕ → List (ℕ × ℕ)
from_row now is [] = []
from_row now is (j ∷ js) = row now j ++ rows is js

abbrev pub pairs : List ℕ → List ℕ → List (ℕ × ℕ)
pairs [] ys = []
pairs (x ∷ xs) [] = []
pairs (x ∷ xs) (y ∷ ys) = (x, y) ∷ pairs xs ys

pairs-nil : (xs : List ℕ) → pairs xs [] ≡ []
pairs-nil [] = refl
pairs-nil (x ∷ xs) = refl

pub rows-nil : (js : List ℕ) → rows [] js ≡ []
rows-nil [] = refl
rows-nil (j ∷ js) = rows-nil js

from_row_self : (is js : List ℕ) → from_row is is js ≡ rows is js
from_row_self is [] = refl
from_row_self is (j ∷ js) = refl

module _ {F : Type 0} where
  unfoldable pub rest : Coord2dSet F → List (ℕ × ℕ)
  rest (grid iset jset) =
      from_row (Walk1d.rest iset) (Walk1d.rest (Coord1d.begin iset)) (Walk1d.rest jset)
  rest (bucket alpha delta) = pairs (Walk1d.rest alpha) (Walk1d.rest delta)
  rest empty = []

  abbrev pub IsPixelSets : Coord2dSet F → Type 0
  IsPixelSets (grid iset jset) =
      IsPixelSet iset
      × IsPixelSet jset
      × (Walk1d.rest iset ≡ [] → Walk1d.rest (Coord1d.begin iset) ≡ [])
  IsPixelSets (bucket alpha delta) = IsPixelSet alpha × IsPixelSet delta
  IsPixelSets empty = Unit {0}

  -- The current pixel of a set, with what it leaves behind.
  abbrev Heads : Coord2dSet F → Type 0
  Heads s =
      (x : ℕ × ℕ) × (deref s ≡ ok x) × (rest s ≡ x ∷ rest (advance s)) × IsPixelSets (advance s)

  Heads-grid :
      (iset jset : Coord1dSet F)
      → IsPixelSets (grid iset jset)
      → Coord1d.valid iset ≡ true
      → Coord1d.valid jset ≡ true
      → Heads (grid iset jset)
  unfolding rest deref advance
  Heads-grid iset jset (pi, pj, _) vi vj =
      let (i, di, ri, ni) = Walk1d.rest-valid iset pi vi in
      let (j, dj, rj, nj) = Walk1d.rest-valid jset pj vj in
      elim (Bool-cases (Coord1d.valid (Coord1d.advance iset))) [
        | inl more ↦
            let (_, _, next, _) = Walk1d.rest-valid (Coord1d.advance iset) ni more in
            rw (vi, vj, more)
              ((i, j), rw (di, dj), rw (ri, rj, Walk1d.begin-advance iset), (ni, pj, λ e. cc))
        | inr over ↦
            rw (vi, vj, over)
              (
                (i, j),
                rw (di, dj),
                simp (
                  ri,
                  rj,
                  Walk1d.begin-begin,
                  Walk1d.begin-advance,
                  Walk1d.rest-not_valid (Coord1d.advance iset) ni over,
                  from_row_self,
                ),
                (Walk1d.begin-IsPixelSet _ ni, nj, λ e. rw Walk1d.begin-begin e),
              )
      ]

  -- A valid set of pixels has a current one, and moving on leaves the pixels behind it.
  pub rest-valid : (s : Coord2dSet F) → IsPixelSets s → valid s ≡ true → Heads s
  unfolding valid
  rest-valid (grid iset jset) p v = Heads-grid iset jset p (ground arith) (ground arith)
  rest-valid (bucket alpha delta) p v =
      let (i, di, ri, ni) = Walk1d.rest-valid alpha p.0 (ground arith) in
      let (j, dj, rj, nj) = Walk1d.rest-valid delta p.1 (ground arith) in
      unfold rest deref advance in ((i, j), rw (di, dj), rw (ri, rj), (ni, nj))
  rest-valid empty p v = cc

  -- A set that is not valid has no pixel left.
  pub rest-not_valid : (s : Coord2dSet F) → IsPixelSets s → valid s ≡ false → rest s ≡ []
  unfolding valid rest
  rest-not_valid (grid iset jset) (pi, pj, stuck) v = elim (Bool-cases (Coord1d.valid iset)) [
    | inl vi ↦ rw (Walk1d.rest-not_valid jset pj (ground arith)) refl
    | inr vi ↦
        let none_left = Walk1d.rest-not_valid iset pi vi in
        rw (none_left, stuck none_left)
          (from_row_self [] (Walk1d.rest jset) ∙ rows-nil (Walk1d.rest jset))
  ]
  rest-not_valid (bucket alpha delta) p v = elim (Bool-cases (Coord1d.valid alpha)) [
    | inl va ↦ rw (Walk1d.rest-not_valid delta p.1 (ground arith)) (pairs-nil _)
    | inr va ↦ rw (Walk1d.rest-not_valid alpha p.0 va) refl
  ]
  rest-not_valid empty p v = refl

  -- `begin` puts a grid at the head of its rows.
  pub rest-begin :
      (iset jset : Coord1dSet F)
      → rest (begin (grid iset jset))
        ≡ rows (Walk1d.rest (Coord1d.begin iset)) (Walk1d.rest (Coord1d.begin jset))
  unfolding rest begin
  rest-begin iset jset = simp (Walk1d.begin-begin, from_row_self)

  pub begin-IsPixelSets :
      (iset jset : Coord1dSet F)
      → IsPixelSet iset
      → IsPixelSet jset
      → IsPixelSets (begin (grid iset jset))
  unfolding begin
  begin-IsPixelSets iset jset pi pj = (
    Walk1d.begin-IsPixelSet iset pi,
    Walk1d.begin-IsPixelSet jset pj,
    λ e. rw Walk1d.begin-begin e,
  )
