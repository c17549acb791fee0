-- ===== src/Worldline/Locate/Search.antt =====
-- The binary search of getCoord.
use gyoto.Prelude.{
  ℕ, zero, suc, ◌+◌, ◌-◌, ◌/◌, ◌≡◌, ◌≤◌, ◌<◌, inl, inr, Bool, true, false, Bool-cases, some, ltb,
  ok, arith, tests,
}
use gyoto.Worldline.{Worldline}
use gyoto.Worldline.Fill.{Integrator}
use gyoto.Worldline.Locate.{Cursors, ge, time, search}

-- What the comparisons of dates have to satisfy, which those of doubles do where none is NaN.
pub record IsOrder {F I : Type 0} (integrator : Integrator F I) : Type 0 where
  pub asymmetric : (a b : F) → integrator.lt a b ≡ true → integrator.lt b a ≡ false
  pub total : (a b : F) → integrator.lt a b ≡ false → ge integrator a b ≡ true

module _ {F I : Type 0} (integrator : Integrator F I) (proper : Bool) where
  open integrator use {lt}

  -- The date is not before the lower cursor and not after the upper one.
  pub record Encloses (w : Worldline F) (date : F) (c : Cursors) : Type 0 where
    pub first : w.imin ≤ c.curl
    pub apart : c.curl < c.curh
    pub final : c.curh ≤ w.imax
    pub low : F
    pub low_read : time proper w c.curl ≡ some low
    pub from_low : ge integrator date low ≡ true
    pub high : F
    pub high_read : time proper w c.curh ≡ some high
    pub to_high : lt high date ≡ false

  -- Every date from imin_ to imax_ can be read.
  abbrev pub IsDated : Worldline F → Type 0
  IsDated w = (k : ℕ) → w.imin ≤ k → k ≤ w.imax → (t : F) × (time proper w k ≡ some t)

  pub ge-lt : (date t : F) → ge integrator date t ≡ false → lt t date ≡ false
  ge-lt date t e = elim (Bool-cases (lt t date)) [ inl later ↦ absurd (ground arith) | inr h ↦ h ]

  abbrev middle : Cursors → ℕ
  middle c = c.curl + (c.curh - c.curl) / 2

  raise-Encloses :
      (w : Worldline F) (date : F) (c : Cursors) (m : ℕ) (t : F)
      → Encloses w date c
      → c.curl < m
      → m < c.curh
      → time proper w m ≡ some t
      → ge integrator date t ≡ true
      → Encloses w date (record c { curl = m })
  raise-Encloses w date c m t e lo hi r later = record {
    first = omega (arith, e.first);
    apart = hi;
    final = e.final;
    low = t;
    low_read = r;
    from_low = later;
    high = e.high;
    high_read = e.high_read;
    to_high = e.to_high;
  }

  lower-Encloses :
      (w : Worldline F) (date : F) (c : Cursors) (m : ℕ) (t : F)
      → Encloses w date c
      → c.curl < m
      → m < c.curh
      → time proper w m ≡ some t
      → ge integrator date t ≡ false
      → Encloses w date (record c { curh = m })
  lower-Encloses w date c m t e lo hi r earlier = record {
    first = e.first;
    apart = lo;
    final = omega (arith, e.final);
    low = e.low;
    low_read = e.low_read;
    from_low = e.from_low;
    high = t;
    high_read = r;
    to_high = ge-lt date t earlier;
  }

  -- On cursors that enclose the date, with as many rounds as the distance between them, the binary
  -- search ends, reads no index out of use, and leaves neighbouring cursors that enclose the date. The
  -- dates need not be sorted.
  pub search_lem :
      (fuel : ℕ) (w : Worldline F) (date : F) (c : Cursors)
      → IsDated w
      → Encloses w date c
      → c.curh - c.curl ≤ fuel
      → (c' : Cursors) × (search integrator proper fuel w date c ≡ ok c')
        × Encloses w date c'
        × (c'.curh ≡ c'.curl + 1)
  unfolding search
  search_lem zero w date c d e enough = absurd (omega (arith, e.apart))
  search_lem (suc fuel) w date c d e enough =
      let m = middle c in
      let ordered : ltb c.curh c.curl ≡ false = ground (arith, e.apart) in
      elim (Bool-cases (ltb 1 (c.curh - c.curl))) [
        | inr stop ↦ (c, simp (ordered, stop), e, ground (arith, e.apart))
        | inl go ↦
            let far : 1 < c.curh - c.curl = omega tests in
            let lo : c.curl < m = omega arith in
            let hi : m < c.curh = omega arith in
            let (t, r) = d m (omega (arith, e.first)) (omega (arith, e.final)) in
            elim (Bool-cases (ge integrator date t)) [
              | inl later ↦
                  let (c', s, e', next) =
                    search_lem fuel w date (record c { curl = m }) d
                      (raise-Encloses w date c m t e lo hi r later) (omega arith) in
                  (c', simp (ordered, go, r, later, s), e', next)
              | inr earlier ↦
                  let (c', s, e', next) =
                    search_lem fuel w date (record c { curh = m }) d
                      (lower-Encloses w date c m t e lo hi r earlier) (omega arith) in
                  (c', simp (ordered, go, r, earlier, s), e', next)
            ]
      ]
