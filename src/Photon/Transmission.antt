-- ===== src/Photon/Transmission.antt =====
-- Transmissions multiply, channel by channel.
use gyoto.Prelude.{
  ℕ, zero, suc, ◌≡◌, ◌≢◌, ◌<◌, ◌≤◌, refl, ap, ◌∙◌, true, false, ◌==◌, ltb, some, List, [], ◌∷◌,
  length, get_elem?, get_elem?-some, get_elem?-set_self, get_elem?-set_ne, length-set, set,
  replicate, length-replicate, ok, arith,
}
use gyoto.Photon.{
  Double, Photon, freqobs_index, has_channel, get_transmission, ones, reset_transmission,
  allocate_transmission, set_spectrometer, transmit, attenuate, transfer,
}

module _ {F : Type 0} where
  -- The array has a cell for each of the `n` channels.
  pub record IsAllocated (n : ℕ) (ph : Photon F) : Type 0 where
    pub samples : ph.spectro ≡ some n
    pub array : List F
    pub there : ph.transmission ≡ some array
    pub all : length array ≡ n

module _ {F : Type 0} (double : Double F) where
  open double use {one, mul, exp_minus, nought}

  attenuate_lem :
      (n : ℕ) (is ts bs : List F)
      → n ≤ length is
      → length ts ≡ n
      → n ≤ length bs
      → (js us : List F) × (attenuate double n is ts bs ≡ ok (js, us))
        × (length us ≡ n)
        × ((k : ℕ) (i t b : F)
            → k < n
            → get_elem? is k ≡ some i
            → get_elem? ts k ≡ some t
            → get_elem? bs k ≡ some b
            → (get_elem? js k ≡ some (mul i t)) × (get_elem? us k ≡ some (mul t (exp_minus b))))
  attenuate_lem zero is ts bs hi ht hb =
      (is, ts, refl, ht, λ k i t b lt. absurd (omega (arith, lt)))
  attenuate_lem (suc n) [] ts bs hi ht hb = absurd (omega arith)
  attenuate_lem (suc n) (i ∷ is) [] bs hi ht hb = absurd (omega (arith, ht))
  attenuate_lem (suc n) (i ∷ is) (t ∷ ts) [] hi ht hb = absurd (omega arith)
  attenuate_lem (suc n) (i ∷ is) (t ∷ ts) (b ∷ bs) hi ht hb =
      let (js, us, r, l, each) =
        attenuate_lem n is ts bs (omega arith) (omega (arith, ht)) (omega arith) in
      (mul i t ∷ js, mul t (exp_minus b) ∷ us, rw r refl, ap suc l, cells js us each)
    where
      cells :
          (js us : List F)
          → ((k : ℕ) (i' t' b' : F)
              → k < n
              → get_elem? is k ≡ some i'
              → get_elem? ts k ≡ some t'
              → get_elem? bs k ≡ some b'
              → (get_elem? js k ≡ some (mul i' t'))
                × (get_elem? us k ≡ some (mul t' (exp_minus b'))))
          → (k : ℕ) (i' t' b' : F) → k < suc n
          → get_elem? (i ∷ is) k ≡ some i'
          → get_elem? (t ∷ ts) k ≡ some t'
          → get_elem? (b ∷ bs) k ≡ some b'
          → (get_elem? (mul i t ∷ js) k ≡ some (mul i' t'))
            × (get_elem? (mul t (exp_minus b) ∷ us) k ≡ some (mul t' (exp_minus b')))
      cells js us each zero i' t' b' lt p q r =
          let a : i ≡ i' = cc in
          let c : t ≡ t' = cc in let d : b ≡ b' = cc in rw (a, c, d) (refl, refl)
      cells js us each (suc k) i' t' b' lt p q r = each k i' t' b' (omega arith) p q r

  transfer_steps :
      (n : ℕ) (inu ainu : List F) (ph : Photon F) (ts js us : List F)
      → ph.spectro ≡ some (suc n)
      → ph.transmission ≡ some ts
      → attenuate double (suc n) inu ts ainu ≡ ok (js, us)
      → transfer double inu ainu ph ≡ ok (js, record ph { transmission = some us })
  unfolding transfer
  transfer_steps n inu ainu ph ts js us here there r = simp (transfer, here, there, r)

  -- transfer, of intensities and absorptions for at least `n` channels, returns. In each channel the
  -- intensity is multiplied by the transmission so far, and the transmission by exp(-aInu).
  pub transfer_lem :
      (n : ℕ) (inu ainu : List F) (ph : Photon F)
      → 0 < n
      → IsAllocated n ph
      → n ≤ length inu
      → n ≤ length ainu
      → (r : List F × Photon F) × (transfer double inu ainu ph ≡ ok r)
        × IsAllocated n r.1
        × ((k : ℕ) (i t a : F)
            → k < n
            → n < freqobs_index
            → get_elem? inu k ≡ some i
            → get_transmission ph k ≡ ok t
            → get_elem? ainu k ≡ some a
            → (get_elem? r.0 k ≡ some (mul i t))
              × (get_transmission r.1 k ≡ ok (mul t (exp_minus a))))
  unfolding transfer get_transmission
  transfer_lem zero inu ainu ph h al hi ha = elim h [ ]
  transfer_lem (suc n) inu ainu ph h al hi ha =
      let here = al.samples in
      let there = al.there in
      let (js, us, r, l, each) = attenuate_lem (suc n) inu al.array ainu hi al.all ha in
      let after : Photon F = record ph { transmission = some us } in
      (
        (js, after),
        transfer_steps n inu ainu ph al.array js us here there r,
        record { samples = here; array = us; there = refl; all = l },
        λ k i t a lt small gi gt ga.
            let index : (k == freqobs_index) ≡ false = ground arith in
            let inside : ltb k (suc n) ≡ true = ground arith in
            let (u, q) = get_elem?-some al.array k (omega (arith, al.all)) in
            let gt' = rw (get_transmission, index, here, inside, there, q) at gt in
            let same : u ≡ t = cc in
            let (x, y) = each k i t a lt gi (q ∙ ap some same) ga in
            (x, rw (index, here, inside, y) refl),
      )

  transmit_steps :
      (n i : ℕ) (t u : F) (ts : List F) (ph : Photon F)
      → (i == freqobs_index) ≡ false
      → ltb i n ≡ true
      → ph.spectro ≡ some n
      → ph.transmission ≡ some ts
      → get_elem? ts i ≡ some u
      → transmit double i t ph ≡ ok (record ph { transmission = some (set ts i (mul u t)) })
  unfolding transmit
  transmit_steps n i t u ts ph index inside here there q =
      let channel : has_channel ph i ≡ true = rw here inside in
      simp (transmit, index, channel, there, q)

  -- Where the array is allocated, transmit of a channel below size_t(-1) multiplies its transmission by `t` and leaves the other channels, and the
  -- observed frequency, as they were.
  pub transmit_lem :
      (n i : ℕ) (t u : F) (ph : Photon F)
      → i < n
      → n < freqobs_index
      → IsAllocated n ph
      → get_transmission ph i ≡ ok u
      → (ph' : Photon F) × (transmit double i t ph ≡ ok ph')
        × IsAllocated n ph'
        × (get_transmission ph' i ≡ ok (mul u t))
        × ((j : ℕ) → j ≢ i → get_transmission ph' j ≡ get_transmission ph j)
  unfolding get_transmission
  transmit_lem n i t u ph lt small al g =
      let here = al.samples in
      let there = al.there in
      let index : (i == freqobs_index) ≡ false = ground arith in
      let inside : ltb i n ≡ true = ground arith in
      let (v, q) = get_elem?-some al.array i (omega (arith, al.all)) in
      let g' = rw (get_transmission, index, here, inside, there, q) at g in
      let same : v ≡ u = cc in
      let ts = set al.array i (mul u t) in
      let now : get_elem? ts i ≡ some (mul u t) =
        get_elem?-set_self al.array i (mul u t) (omega (arith, al.all)) in
      (
        record ph { transmission = some ts },
        transmit_steps n i t u al.array ph index inside here there (q ∙ ap some same),
        record {
          samples = here;
          array = ts;
          there = refl;
          all = length-set al.array i (mul u t) ∙ al.all;
        },
        rw (index, here, inside, now) refl,
        λ j ne.
            let kept =
              get_elem?-set_ne al.array {i = i} {j = j} (mul u t) (λ e. ne (omega (arith, e))) in
            rw (get_transmission, there, kept) refl,
      )

  ones_lem : (n : ℕ) (d : F) → ones double n (replicate n d) ≡ ok (replicate n one)
  ones_lem zero d = refl
  ones_lem (suc n) d = rw (ones_lem n d) refl

  get_elem?-replicate_lt : (n : ℕ) (d : F) (k : ℕ) → k < n → get_elem? (replicate n d) k ≡ some d
  get_elem?-replicate_lt zero d k lt = absurd (omega (arith, lt))
  get_elem?-replicate_lt (suc n) d zero lt = refl
  get_elem?-replicate_lt (suc n) d (suc k) lt = get_elem?-replicate_lt n d k (omega arith)

  -- A spectrometer of at least one channel gets an array with a cell for each of its channels, all of
  -- them fully transparent, whatever spectrometer was there before.
  pub set_spectrometer_lem :
      (n : ℕ) (ph : Photon F)
      → 0 < n
      → n < freqobs_index
      → (ph' : Photon F) × (set_spectrometer double (some n) ph ≡ ok ph')
        × IsAllocated n ph'
        × ((k : ℕ) → k < n → get_transmission ph' k ≡ ok one)
  unfolding set_spectrometer allocate_transmission reset_transmission get_transmission
  set_spectrometer_lem n ph h small =
      let several : (n == 0) ≡ false = ground arith in
      let full = ones_lem n nought in
      (
        record {
          spectro = some n;
          transmission_freqobs = one;
          transmission = some (replicate n one);
        },
        rw (several, full) refl,
        record {
          samples = refl;
          array = replicate n one;
          there = refl;
          all = length-replicate n one;
        },
        λ k lt.
            let index : (k == freqobs_index) ≡ false = ground arith in
            let inside : ltb k n ≡ true = ground arith in
            rw (index, inside, get_elem?-replicate_lt n one k lt) refl,
      )
