-- ===== src/Scenery/Mpi/Layout.antt =====
-- The quantities of locdata stay inside the message, but two spectra of two samples overlap.
use gyoto.Prelude.{
  ℕ, zero, suc, ◌+◌, ◌*◌, ◌≡◌, ◌≤◌, ◌<◌, inl, inr, refl, sym, ap, subst, ◌∙◌, Bool, Bool-cases,
  true, false, ◌&&◌, ◌==◌, ==_iff, if◌then◌else◌, Option, none, some, List, [], ◌∷◌, ◌++◌, not, ◌⊎◌,
  get_elem?, arith,
}
use gyoto.Scenery.Quantities.{
  Quantity, intensity, emissiontime, min_distance, first_dmin, redshift, nbcrosseqplane,
  impactcoords, spectrum, spectrum_stokes_q, spectrum_stokes_u, spectrum_stokes_v, binspectrum,
  user1, user2, user3, user4, user5, all_quantities, bit, Word, scalar_quantities_count,
  spectral_quantities_count,
}
use gyoto.Astrobj.Properties.{Shape, scalar, spectral, vector, shape, stride, touched, places}
use gyoto.Astrobj.Properties.Cells.{get_elem?-spaced}
use gyoto.Scenery.Mpi.{message_size, layout_order, pointer_in, locdata}

-- The quantity of a bit.
find_bit : ℕ → List Quantity → Quantity
find_bit k [] = intensity
find_bit k (q ∷ qs) = if k == bit q then q else find_bit k qs

find_bit-bit : (q : Quantity) → find_bit (bit q) all_quantities ≡ q
unfolding find_bit
find_bit-bit intensity = refl
find_bit-bit emissiontime = refl
find_bit-bit min_distance = refl
find_bit-bit first_dmin = refl
find_bit-bit redshift = refl
find_bit-bit nbcrosseqplane = refl
find_bit-bit impactcoords = refl
find_bit-bit spectrum = refl
find_bit-bit spectrum_stokes_q = refl
find_bit-bit spectrum_stokes_u = refl
find_bit-bit spectrum_stokes_v = refl
find_bit-bit binspectrum = refl
find_bit-bit user1 = refl
find_bit-bit user2 = refl
find_bit-bit user3 = refl
find_bit-bit user4 = refl
find_bit-bit user5 = refl

bit-injective : (p q : Quantity) → bit p ≡ bit q → p ≡ q
bit-injective p q e = sym (find_bit-bit p) ∙ ap (λ k. find_bit k all_quantities) e ∙ find_bit-bit q

-- The cells up to which curquant is raised.
abbrev room : List Quantity → Word → ℕ
room [] w = 0
room (p ∷ ps) w = (if w (bit p) then stride (shape p) else 0) + room ps w

some-injective : {a b : ℕ} → some a ≡ some b → a ≡ b
some-injective e = cc

both_true : (a b : Bool) → a && b ≡ true → (a ≡ true) × (b ≡ true)
both_true a b e = ground arith

raise_le :
    (b : Bool) (cur step rest x : ℕ)
    → x ≤ (if b then cur + step else cur) + rest
    → x ≤ cur + ((if b then step else 0) + rest)
raise_le true cur step rest x h = omega arith
raise_le false cur step rest x h = omega arith

pointer_in-lt :
    (ps : List Quantity) (w : Word) (cur : ℕ) (q : Quantity) {a : ℕ}
    → pointer_in ps w cur q ≡ some a
    → (a + stride (shape q) ≤ cur + room ps w) × (w (bit q) ≡ true)
unfolding pointer_in
pointer_in-lt [] w cur q e = cc
pointer_in-lt (p ∷ ps) w cur q {a} e = elim (Bool-cases ((bit p == bit q) && w (bit p))) [
  | inl found ↦
      let (same, asked) = both_true (bit p == bit q) (w (bit p)) found in
      let one : p ≡ q = bit-injective p q ((==_iff (bit p) (bit q)).0 same) in
      let e' : some cur ≡ some a = rw (pointer_in, found) at e in
      let at : cur ≡ a = some-injective e' in
      let asked_q : w (bit q) ≡ true = subst (λ t. w (bit t) ≡ true) one asked in
      let strides : stride (shape q) ≡ stride (shape p) = ap (λ t. stride (shape t)) (sym one) in
      (rw asked (omega arith), asked_q)
  | inr past ↦
      let e' : pointer_in ps w (if w (bit p) then cur + stride (shape p) else cur) q ≡ some a =
        rw (pointer_in, past) at e in
      let (low, asked) =
        pointer_in-lt ps w (if w (bit p) then cur + stride (shape p) else cur) q e' in
      (raise_le (w (bit p)) cur (stride (shape p)) (room ps w) (a + stride (shape q)) low, asked)
]

room-layout_order :
    (w : Word)
    → room layout_order w
      ≡ scalar_quantities_count w
        + spectral_quantities_count w
        + (if w (bit impactcoords) then 16 else 0)
unfolding scalar_quantities_count spectral_quantities_count
room-layout_order w = omega arith

spectral_asked :
    (q : Quantity) (w : Word)
    → shape q ≡ spectral
    → w (bit q) ≡ true
    → 1 ≤ spectral_quantities_count w
unfolding spectral_quantities_count
spectral_asked intensity w e h = cc
spectral_asked emissiontime w e h = cc
spectral_asked min_distance w e h = cc
spectral_asked first_dmin w e h = cc
spectral_asked redshift w e h = cc
spectral_asked nbcrosseqplane w e h = cc
spectral_asked impactcoords w e h = cc
spectral_asked spectrum w e h = rw h (omega arith)
spectral_asked spectrum_stokes_q w e h = rw h (omega arith)
spectral_asked spectrum_stokes_u w e h = rw h (omega arith)
spectral_asked spectrum_stokes_v w e h = rw h (omega arith)
spectral_asked binspectrum w e h = rw h (omega arith)
spectral_asked user1 w e h = cc
spectral_asked user2 w e h = cc
spectral_asked user3 w e h = cc
spectral_asked user4 w e h = cc
spectral_asked user5 w e h = cc

samples_le : (n m : ℕ) → (m ≡ 0) ⊎ (0 < n) → m ≤ n * m
samples_le n m (inl none_asked) = omega arith
samples_le zero m (inr some_samples) = absurd (omega arith)
samples_le (suc n) m (inr some_samples) = grind arith

spectra_le : (n m : ℕ) → 0 < n → 0 < m → n + m ≤ n * m + 1
spectra_le zero m h k = absurd (omega arith)
spectra_le (suc n) zero h k = absurd (omega arith)
spectra_le (suc n) (suc m) h k = grind arith

places-lt :
    (sh : Shape) (n m c a k : ℕ) {x : ℕ}
    → get_elem? (places sh n 1 a) k ≡ some x
    → a + stride sh ≤ c + m
    → (sh ≡ spectral → 1 ≤ m)
    → (m ≡ 0) ⊎ (0 < n)
    → x < c + n * m
places-lt scalar n m c a zero e low asked samples =
    let at : a ≡ _ = some-injective e in omega (arith, samples_le n m samples)
places-lt scalar n m c a (suc k) e low asked samples = cc
places-lt spectral n m c a k e low asked samples =
    let (lt, at) = get_elem?-spaced a 1 n k e in
    omega (arith, asked refl, spectra_le n m (omega arith) (asked refl))
places-lt vector n m c a k e low asked samples =
    let (lt, at) = get_elem?-spaced a 1 16 k e in omega (arith, samples_le n m samples)

touched_from :
    (o : Option ℕ) (sh : Shape) (n k : ℕ) {x : ℕ}
    → get_elem? (elim o as (λ m. List ℕ) [ none ↦ [] | some a ↦ places sh n 1 a ]) k ≡ some x
    → (a : ℕ) × (o ≡ some a) × (get_elem? (places sh n 1 a) k ≡ some x)
touched_from none sh n k e = cc
touched_from (some a) sh n k e = (a, refl, e)

-- Whatever is requested, the cells of each quantity are inside the message, where a spectrometer has a
-- sample if a spectrum is requested.
pub locdata-lt :
    (n : ℕ) (w : Word) (q : Quantity) (k x : ℕ)
    → (spectral_quantities_count w ≡ 0) ⊎ (0 < n)
    → get_elem? (touched n (locdata w) q) k ≡ some x
    → x < message_size n w
unfolding locdata message_size
locdata-lt n w q k x samples e =
    let (a, ptr, at) = touched_from (pointer_in layout_order w 0 q) (shape q) n k e in
    let (low, asked) = pointer_in-lt layout_order w 0 q ptr in
    let vectors : ℕ = if w (bit impactcoords) then 16 else 0 in
    let less : x < scalar_quantities_count w + vectors + n * spectral_quantities_count w =
      places-lt (shape q) n (spectral_quantities_count w) (scalar_quantities_count w + vectors) a k
        at (omega (arith, room-layout_order w)) (λ sh. spectral_asked q w sh asked) samples in
    omega arith

raised : List Quantity → Word → ℕ → ℕ
raised [] w cur = cur
raised (p ∷ ps) w cur = raised ps w (if w (bit p) then cur + stride (shape p) else cur)

lacks : Quantity → List Quantity → Bool
lacks q [] = true
lacks q (p ∷ ps) = not (bit p == bit q) && lacks q ps

pointer_in-append :
    (ps rest : List Quantity) (w : Word) (cur : ℕ) (q : Quantity)
    → lacks q ps ≡ true
    → pointer_in (ps ++ rest) w cur q ≡ pointer_in rest w (raised ps w cur) q
unfolding pointer_in raised lacks
pointer_in-append [] rest w cur q e = refl
pointer_in-append (p ∷ ps) rest w cur q e = elim (Bool-cases (bit p == bit q)) [
  | inl same ↦ let e' : false ≡ true = rw (lacks, same) at e in cc
  | inr other ↦
      let e' : lacks q ps ≡ true = rw (lacks, other) at e in
      rw (pointer_in, other)
        (pointer_in-append ps rest w (if w (bit p) then cur + stride (shape p) else cur) q e')
]

abbrev before_spectra : List Quantity
before_spectra =
    intensity ∷ emissiontime ∷ min_distance ∷ first_dmin ∷ redshift ∷ nbcrosseqplane ∷ impactcoords
    ∷ user1 ∷ user2 ∷ user3 ∷ user4 ∷ user5 ∷ []

abbrev spectra : List Quantity
spectra = spectrum ∷ spectrum_stokes_q ∷ spectrum_stokes_u ∷ spectrum_stokes_v ∷ binspectrum ∷ []

spectra_at :
    (w : Word) (c : ℕ)
    → w (bit spectrum) ≡ true
    → w (bit spectrum_stokes_q) ≡ true
    → (pointer_in spectra w c spectrum ≡ some c)
      × (pointer_in spectra w c spectrum_stokes_q ≡ some (c + 1))
unfolding pointer_in
spectra_at w c s q = (rw s refl, rw (s, q) refl)

-- Where a spectrum and Stokes Q are requested, for two samples or more, the second sample of the spectrum
-- and the first sample of Stokes Q are one cell of the message.
pub two_spectra_overlap :
    (n : ℕ) (w : Word)
    → 2 ≤ n
    → w (bit spectrum) ≡ true
    → w (bit spectrum_stokes_q) ≡ true
    → (x : ℕ) × (get_elem? (touched n (locdata w) spectrum) 1 ≡ some x)
      × (get_elem? (touched n (locdata w) spectrum_stokes_q) 0 ≡ some x)
unfolding locdata lacks
two_spectra_overlap zero w h s q = absurd (omega arith)
two_spectra_overlap (suc zero) w h s q = absurd (omega arith)
two_spectra_overlap (suc (suc n)) w h s q =
    let c = raised before_spectra w 0 in
    let (at_s, at_q) = spectra_at w c s q in
    let e_s = pointer_in-append before_spectra spectra w 0 spectrum refl ∙ at_s in
    let e_q = pointer_in-append before_spectra spectra w 0 spectrum_stokes_q refl ∙ at_q in
    (c + 1, rw e_s refl, rw e_q refl)
