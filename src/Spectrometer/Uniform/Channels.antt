-- ===== src/Spectrometer/Uniform/Channels.antt =====
-- The channels that reset_ lays out.
use gyoto.Prelude.{
  ℕ, zero, suc, ◌+◌, ◌*◌, ◌≡◌, ◌<◌, refl, ◌∙◌, ap, true, false, ◌==◌, some, List, [], ◌∷◌, length,
  get_elem?, get_or, arith,
}
use gyoto.Spectrometer.{Generic, IsSound}
use gyoto.Spectrometer.Uniform.{
  Double, Kind, Uniform, channels_from, boundary, boundaries_from, from_pairs, width, midpoint,
  fill, reset, construct, set_nsamples,
}

length-channels_from : (i n : ℕ) → length (channels_from i n) ≡ n * 2
length-channels_from i zero = omega arith
length-channels_from i (suc n) = omega (arith, length-channels_from (i + 1) n)

channels_from-lt : (i n k : ℕ) {c : ℕ} → get_elem? (channels_from i n) k ≡ some c → c < i + n + 1
channels_from-lt i zero k e = cc
channels_from-lt i (suc n) zero e = ground (arith, e)
channels_from-lt i (suc n) (suc zero) e = ground (arith, e)
channels_from-lt i (suc n) (suc (suc k)) e = omega (arith, channels_from-lt (i + 1) n k e)

channels_from_lem :
    (i n j m : ℕ)
    → j < n
    → m ≡ j * 2
    → (get_elem? (channels_from i n) m ≡ some (i + j))
      × (get_elem? (channels_from i n) (suc m) ≡ some (i + j + 1))
channels_from_lem i zero j m h e = absurd (omega arith)
channels_from_lem i (suc n) zero zero h e = (ap some (omega arith), ap some (omega arith))
channels_from_lem i (suc n) zero (suc m) h e = absurd (omega arith)
channels_from_lem i (suc n) (suc j) zero h e = absurd (omega arith)
channels_from_lem i (suc n) (suc j) (suc zero) h e = absurd (omega arith)
channels_from_lem i (suc n) (suc j) (suc (suc m)) h e =
    let (a, b) = channels_from_lem (i + 1) n j m (omega arith) (omega arith) in
    (a ∙ ap some (omega arith), b ∙ ap some (omega arith))

module _ {F : Type 0} (double : Double F) where
  open double use {nought}

  length-boundaries_from :
      (k : Kind) (band : F × F) (n i rounds : ℕ)
      → length (boundaries_from double k band n i rounds) ≡ rounds
  length-boundaries_from k band n i zero = refl
  length-boundaries_from k band n i (suc rounds) =
      ap suc (length-boundaries_from k band n (i + 1) rounds)

  boundaries_from_lem :
      (k : Kind) (band : F × F) (n i rounds j : ℕ)
      → j < rounds
      → get_elem? (boundaries_from double k band n i rounds) j
        ≡ some (boundary double k band n (i + j))
  boundaries_from_lem k band n i zero j h = absurd (omega arith)
  boundaries_from_lem k band n i (suc rounds) zero h = let e : i + 0 ≡ i = omega arith in rw e refl
  boundaries_from_lem k band n i (suc rounds) (suc j) h =
      let e : i + suc j ≡ i + 1 + j = omega arith in
      rw e (boundaries_from_lem k band n (i + 1) rounds j (omega arith))

  length-from_pairs :
      (f : F → F → F) (b : List F) (i n : ℕ) → length (from_pairs double f b i n) ≡ n
  length-from_pairs f b i zero = refl
  length-from_pairs f b i (suc n) = ap suc (length-from_pairs f b (i + 1) n)

  get_or_lem : (b : List F) (i : ℕ) (d : F) {x : F} → get_elem? b i ≡ some x → get_or b i d ≡ x
  get_or_lem [] i d e = cc
  get_or_lem (y ∷ b) zero d e = cc
  get_or_lem (y ∷ b) (suc i) d e = get_or_lem b i d e

  from_pairs_lem :
      (f : F → F → F) (b : List F) (i n j : ℕ)
      → j < n
      → get_elem? (from_pairs double f b i n) j
        ≡ some (f (get_or b (i + j + 1) nought) (get_or b (i + j) nought))
  from_pairs_lem f b i zero j h = absurd (omega arith)
  from_pairs_lem f b i (suc n) zero h = let e : i + 0 ≡ i = omega arith in rw e refl
  from_pairs_lem f b i (suc n) (suc j) h =
      let e : i + suc j ≡ i + 1 + j = omega arith in
      rw e (from_pairs_lem f b (i + 1) n j (omega arith))

  -- Channel `j` of the spectrometer: where its ends, its width and its midpoint stand.
  pub record IsChannel (g : Generic F) (k : Kind) (band : F × F) (j : ℕ) : Type 0 where
    pub low_index : get_elem? g.chanind (j * 2) ≡ some j
    pub high_index : get_elem? g.chanind (suc (j * 2)) ≡ some (j + 1)
    pub low_end : get_elem? g.boundaries j ≡ some (boundary double k band g.nsamples j)
    pub high_end : get_elem? g.boundaries (j + 1) ≡ some (boundary double k band g.nsamples (j + 1))
    pub its_width :
        get_elem? g.widths j
        ≡ some (
            width double
              (boundary double k band g.nsamples (j + 1))
              (boundary double k band g.nsamples j))
    pub its_midpoint :
        get_elem? g.midpoints j
        ≡ some (
            midpoint double
              (boundary double k band g.nsamples (j + 1))
              (boundary double k band g.nsamples j))

  fill-IsChannel :
      (g : Generic F) (k : Kind) (band : F × F) (j : ℕ)
      → j < g.nsamples
      → IsChannel (fill double g k band) k band j
  fill-IsChannel g k band j h =
      let n = g.nsamples in
      let zero_add : 0 + j ≡ j = omega arith in
      let (low, high) = channels_from_lem 0 n j (j * 2) h refl in
      let b = boundaries_from double k band n 0 (suc n) in
      let at : (i : ℕ) → i < suc n → get_elem? b i ≡ some (boundary double k band n i) = λ i lt.
        boundaries_from_lem k band n 0 (suc n) i lt
        ∙ ap (λ x. some (boundary double k band n x)) (omega arith) in
      let bl = at j (omega arith) in
      let bh = at (j + 1) (omega arith) in
      let pair : (f : F → F → F)
          → get_elem? (from_pairs double f b 0 n) j
            ≡ some (f (boundary double k band n (j + 1)) (boundary double k band n j)) =
        λ f.
          from_pairs_lem f b 0 n j h
          ∙ ap some
              (rw (zero_add, get_or_lem b j nought bl, get_or_lem b (j + 1) nought bh) refl) in
      record {
        low_index = low ∙ ap some (omega arith);
        high_index = high ∙ ap some (omega arith);
        low_end = bl;
        high_end = bh;
        its_width = pair (width double);
        its_midpoint = pair (midpoint double);
      }

  fill-IsSound :
      (g : Generic F) (k : Kind) (band : F × F)
      → g.nboundaries ≡ g.nsamples + 1
      → IsSound (fill double g k band)
  fill-IsSound g k band e =
      let n = g.nsamples in
      let b = boundaries_from double k band n 0 (suc n) in
      record {
        all_boundaries = length-boundaries_from k band n 0 (suc n) ∙ omega (arith, e);
        all_widths = length-from_pairs (width double) b 0 n;
        all_midpoints = length-from_pairs (midpoint double) b 0 n;
        all_channels = length-channels_from 0 n;
        in_bounds = λ i c q. omega (arith, channels_from-lt 0 n i q);
      }

  reset_filled :
      (u : Uniform F) (k : Kind)
      → u.kindid ≡ some k
      → 0 < u.generic.nsamples
      → reset double u ≡ (record u { generic = fill double u.generic k u.band }, true)
  unfolding reset
  reset_filled u k kin h =
      let some_samples : (u.generic.nsamples == 0) ≡ false = ground arith in
      rw (reset, kin, some_samples)
        (ap (λ x. (record u { generic = fill double u.generic k u.band; kindid = x }, true)) kin)

  -- After nSamples(n), for n of at least 1 and a spectrometer whose kind is set, every array has the
  -- length that nSamples and getNBoundaries announce, every channel index is one of a boundary, and
  -- channel j goes from boundary j to boundary j + 1, with the width and the midpoint of these two. The
  -- listeners are told.
  pub set_nsamples_lem :
      (n : ℕ) (k : Kind) (u : Uniform F)
      → 0 < n
      → u.kindid ≡ some k
      → let (u', told) = set_nsamples double n u in
        (told ≡ true)
        × (u'.generic.nsamples ≡ n)
        × IsSound u'.generic
        × ((j : ℕ) → j < n → IsChannel u'.generic k u.band j)
  unfolding set_nsamples
  set_nsamples_lem n k u h kin =
      let g = record u.generic { nsamples = n; nboundaries = n + 1 } in
      rw (reset_filled (record u { generic = g }) k kin h)
        (refl, refl, fill-IsSound g k u.band refl, λ j lt. fill-IsChannel g k u.band j lt)

  -- Uniform(nsamples, band_min, band_max, kin), for at least one sample and a kind, leaves nboundaries_
  -- at 0 although it allocates and fills nsamples + 1 boundaries.
  pub construct-not_IsSound :
      (n : ℕ) (lo hi : F) (k : Kind)
      → 0 < n
      → let g = (construct double n lo hi (some k)).generic in
        (g.nboundaries ≡ 0) × (length g.boundaries ≡ n + 1) × (¬ IsSound g)
  unfolding construct
  construct-not_IsSound n lo hi k h =
      let l = length-boundaries_from k (lo, hi) n 0 (suc n) in
      let some_samples : (n == 0) ≡ false = ground arith in
      rw some_samples (refl, l ∙ omega arith, λ s. omega (arith, s.all_boundaries, l))
