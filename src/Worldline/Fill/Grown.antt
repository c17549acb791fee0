-- ===== src/Worldline/Fill/Grown.antt =====
-- How far the indices of a worldline move when the arrays grow at one end.
use gyoto.Prelude.{ℕ, ◌+◌, ◌≡◌, refl, arith}
use gyoto.Worldline.{Worldline, Direction, forward, backward, expand}
use gyoto.Worldline.Fill.{close}

module _ {F : Type 0} where
  -- The arrays were expanded at the end that `dir` reaches: the indices in use are moved by what the
  -- arrays have grown by, or not at all.
  abbrev pub Grown : Direction → Worldline F → Worldline F → Type 0
  Grown forward v w = w.i0 ≡ v.i0
  Grown backward v w = w.i0 + v.x_size ≡ v.i0 + w.x_size

  pub Grown-refl : (dir : Direction) (v : Worldline F) (ind : ℕ) → Grown dir (close dir v ind) v
  Grown-refl forward v ind = refl
  Grown-refl backward v ind = refl

  pub Grown-trans :
      (dir : Direction) (u v w : Worldline F) (ind : ℕ)
      → Grown dir u v
      → Grown dir (close dir v ind) w
      → Grown dir u w
  Grown-trans forward u v w ind a b = omega arith
  Grown-trans backward u v w ind a b = omega arith

  pub Grown-close :
      (dir : Direction) (v w : Worldline F) (ind i : ℕ)
      → Grown dir (close dir v ind) w
      → Grown dir v (close dir w i)
  Grown-close forward v w ind i g = g
  Grown-close backward v w ind i g = g

  pub Grown-open :
      (dir : Direction) (v w : Worldline F) (ind : ℕ)
      → Grown dir v w
      → Grown dir (close dir v ind) w
  Grown-open forward v w ind g = g
  Grown-open backward v w ind g = g

  pub expand-Grown : (dir : Direction) (v : Worldline F) → Grown dir v (expand v dir).0
  unfolding expand
  expand-Grown forward v = omega arith
  expand-Grown backward v = omega arith
