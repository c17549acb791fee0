-- ===== src/Screen/Coord2d/Tests.antt =====
-- Small grids.
use gyoto.Prelude.{ℕ, ◌≡◌, refl, true, some, [], ◌∷◌, arith, ok, throws, Error}
use gyoto.Screen.Coord1d
use gyoto.Screen.Coord1d.{Coord1dSet, range, indices, angles}
use gyoto.Screen.Coord2d.{grid, valid, deref, begin, new_bucket}
use gyoto.Screen.Coord2d.Order.{advance_by, grid_order}

-- Columns 1, 3, 5 of rows 2 and 7.
abbrev columns : Coord1dSet ℕ
columns = range 1 5 2 3 1

abbrev two_rows : Coord1dSet ℕ
two_rows = indices (some (2 ∷ 7 ∷ [])) 2 0

columns_new : Coord1d.new_range 1 5 2 ≡ ok columns
unfolding Coord1d.new_range
columns_new = refl

grid_order_example :
    let s = advance_by 4 (begin (grid columns two_rows)) in (valid s ≡ true) × (deref s ≡ ok (3, 7))
unfolding Coord1d.size Coord1d.begin Coord1d.Walk.rest
grid_order_example =
    (grid_order columns two_rows (omega arith) (omega arith) (omega arith)).0 1 1 3 7 refl refl

kinds_differ_test :
    new_bucket {F = ℕ} (indices (some (2 ∷ [])) 1 0) (angles (some (5 ∷ [])) 1 0)
    ≡ throws Error.kinds_differ
unfolding new_bucket Coord1d.kind
kinds_differ_test = refl
