-- ===== src/Photon/Crossings.antt =====
-- Where Photon::hit, in lib/Photon.C, counts how often a photon crosses the equatorial plane, and
-- gives it up.
use gyoto.Prelude.{
  ℕ, ◌+◌, ◌≡◌, ◌≤◌, refl, inl, inr, Bool, true, false, Bool-cases, ◌&&◌, ◌==◌, if◌then◌else◌,
  Outcome, ok, or_undefined, ◌>>=◌, arith,
}
use gyoto.Worldline.{Worldline, Sample, x1, x2, x3}
use gyoto.Worldline.Expand.{IsFilled}

-- The arithmetic of the test, and its parts of the photon and of `data`. `A` is what else hit changes.
pub record Equator (F A : Type 0) : Type 0 where
  -- maxCrossEqplane_<DBL_MAX || data->nbcrosseqplane
  pub counted : Bool
  -- coord[1]*cos(coord[2]), or coord[3], by the kind of coordinates
  pub height : F → F → F → F
  -- coord[1]*cos(coord[2])
  pub disk_height : F → F → F → F
  -- the radius is less than rlim
  pub near : F → F → F → Bool
  pub product : F → F → F
  pub negative : F → Bool
  -- zsign * pow(-1, n)
  pub alternate : F → ℕ → F
  -- nb_cross_eqplane_, and where it is set, with *data->nbcrosseqplane if that is not null
  pub crossings : A → ℕ
  pub set_crossings : ℕ → A → A
  -- nb_cross_eqplane_ > maxCrossEqplane_
  pub too_many : ℕ → Bool
  -- "cancel" this photon's contribution
  pub cancel : A → A
  pub secondary : Bool

module _ {F : Type 0} where
  -- A function of x1_, x2_ and x3_ at an index, which are written together.
  pub at_cell : {B : Type 0} → (F → F → F → B) → Worldline F → ℕ → Outcome B
  at_cell h w k = do
    a ← or_undefined (w.cells x1 k)
    b ← or_undefined (w.cells x2 k)
    c ← or_undefined (w.cells x3 k)
    ok (h a b c)

  -- The same of the coordinates of the integration.
  abbrev pub at_sample : {B : Type 0} → (F → F → F → B) → Sample F → B
  at_sample h coord = h (coord x1) (coord x2) (coord x3)

  pub at_cell_in :
      {B : Type 0}
      → (h : F → F → F → B) (w : Worldline F) (k : ℕ) → IsFilled w
      → w.imin ≤ k
      → k ≤ w.imax
      → (b : B) × (at_cell h w k ≡ ok b)
  unfolding at_cell
  at_cell_in h w k f lo hi =
      let (a, ea) = f.written x1 k lo hi (ground arith) in
      let (b, eb) = f.written x2 k lo hi (ground arith) in
      let (c, ec) = f.written x3 k lo hi (ground arith) in (h a b c, rw (ea, eb, ec) refl)

module _ {F A : Type 0} (equator : Equator F A) where
  open equator use {
    counted, height, disk_height, near, product, negative, alternate, crossings, set_crossings,
    too_many, cancel, secondary,
  }

  -- coord[1]*cos(coord[2])*zsign<0., after `n` crossings
  abbrev pub on_other_side : F → F → ℕ → Bool
  on_other_side z first n = negative (product z (if n == 0 then first else alternate first n))

  abbrev pub crossings_after : Sample F → ℕ → F → ℕ
  crossings_after coord n first =
      if on_other_side (at_sample height coord) first n && at_sample near coord then n + 1 else n

  pub count_crossing : Worldline F → Sample F → A → Outcome A
  unfolding at_cell
  count_crossing w coord a =
      if counted
      then (at_cell height w w.i0 >>= λ first.
          ok (set_crossings (crossings_after coord (crossings a) first) a))
      else ok a

  -- Both the sample and the one before it are beyond the disk.
  pub beyond_disk : Worldline F → ℕ → Sample F → Outcome Bool
  unfolding at_cell
  beyond_disk w ind coord = do
    first ← at_cell disk_height w w.i0
    elim (negative (product (at_sample disk_height coord) first)) [
      | false ↦ ok false
      | true ↦ at_cell disk_height w ind >>= λ z. ok (negative (product z first))
    ]

  -- Once the crossings are counted.
  pub dropped_after : Worldline F → ℕ → Sample F → A → Outcome (Bool × A)
  unfolding beyond_disk
  dropped_after w ind coord a =
      if counted && too_many (crossings a)
      then ok (true, cancel a)
      else (if secondary
          then ok (false, a)
          else (beyond_disk w ind coord >>= λ beyond. ok (beyond, a)))

  -- Whether hit returns 0 at the sample `coord` after the index `ind`.
  pub given_up : Worldline F → ℕ → Sample F → A → Outcome (Bool × A)
  unfolding count_crossing dropped_after
  given_up w ind coord a = count_crossing w coord a >>= dropped_after w ind coord

  count_crossing_in :
      (w : Worldline F) (coord : Sample F) (a : A)
      → IsFilled w
      → (a' : A) × (count_crossing w coord a ≡ ok a')
  unfolding count_crossing
  count_crossing_in w coord a f =
      let (first, e) = at_cell_in height w w.i0 f f.low f.high in
      elim (Bool-cases counted) [
        | inl c ↦ (set_crossings (crossings_after coord (crossings a) first) a, rw (c, e) refl)
        | inr c ↦ (a, rw c refl)
      ]

  beyond_disk_in :
      (w : Worldline F) (ind : ℕ) (coord : Sample F)
      → IsFilled w
      → w.imin ≤ ind
      → ind ≤ w.imax
      → (b : Bool) × (beyond_disk w ind coord ≡ ok b)
  unfolding beyond_disk
  beyond_disk_in w ind coord f lo hi =
      let (first, e) = at_cell_in disk_height w w.i0 f f.low f.high in
      let (z, ez) = at_cell_in disk_height w ind f lo hi in
      elim (Bool-cases (negative (product (at_sample disk_height coord) first))) [
        | inl n ↦ (negative (product z first), rw (e, n, ez) refl)
        | inr n ↦ (false, rw (e, n) refl)
      ]

  dropped_beyond :
      (w : Worldline F) (ind : ℕ) (coord : Sample F) (a : A) (b : Bool)
      → counted && too_many (crossings a) ≡ false
      → secondary ≡ false
      → beyond_disk w ind coord ≡ ok b
      → dropped_after w ind coord a ≡ ok (b, a)
  unfolding dropped_after
  dropped_beyond w ind coord a b c s e = rw (dropped_after, c, s, e) refl

  dropped_after_in :
      (w : Worldline F) (ind : ℕ) (coord : Sample F) (a : A)
      → IsFilled w
      → w.imin ≤ ind
      → ind ≤ w.imax
      → (out : Bool × A) × (dropped_after w ind coord a ≡ ok out)
  unfolding dropped_after
  dropped_after_in w ind coord a f lo hi =
      let (b, e) = beyond_disk_in w ind coord f lo hi in
      elim (Bool-cases (counted && too_many (crossings a))) [
        | inl c ↦ ((true, cancel a), rw (dropped_after, c) refl)
        | inr c ↦ elim (Bool-cases secondary) [
          | inl s ↦ ((false, a), rw (dropped_after, c, s) refl)
          | inr s ↦ ((b, a), dropped_beyond w ind coord a b c s e)
        ]
      ]

  -- The test reads only samples that are integrated.
  pub given_up_in :
      (w : Worldline F) (ind : ℕ) (coord : Sample F) (a : A)
      → IsFilled w
      → w.imin ≤ ind
      → ind ≤ w.imax
      → (out : Bool × A) × (given_up w ind coord a ≡ ok out)
  unfolding given_up
  given_up_in w ind coord a f lo hi =
      let (a', e) = count_crossing_in w coord a f in
      let (out, d) = dropped_after_in w ind coord a' f lo hi in (out, rw (e, d) refl)
