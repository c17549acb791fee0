-- ===== src/Photon.antt =====
-- The transmission of a Gyoto::Photon, in lib/Photon.C: what of the light emitted further on still
-- reaches the observer, for the observed frequency and for each channel of the spectrometer.
pub mod Crossings
pub mod Hit
pub mod Iteration
pub mod Transmission
mod Tests
use gyoto.Prelude.{
  ℕ, zero, suc, ◌-◌, ◌^◌, Bool, true, false, ◌==◌, ltb, not, if◌then◌else◌, Option, none, some,
  List, [], ◌∷◌, get_elem?, set, replicate, Outcome, ok, throws, undefined, or_undefined, require,
  Error, ◌>>=◌, ◌>>◌,
}

pub record Double (F : Type 0) : Type 0 where
  pub nought : F
  pub one : F
  pub mul : F → F → F
  pub exp_minus : F → F
  pub lt : F → F → Bool

-- `spectro` is the number of samples of the spectrometer, where there is one; `transmission` is none
-- where the pointer is null.
pub record Photon (F : Type 0) : Type 0 where
  pub spectro : Option ℕ
  pub transmission_freqobs : F
  pub transmission : Option (List F)

-- size_t(-1), which stands for the observed frequency
abbrev pub freqobs_index : ℕ
freqobs_index = 2 ^ 64 - 1

module _ {F : Type 0} where
  -- !spectro_() || i>=spectro_->nSamples()
  abbrev pub has_channel : Photon F → ℕ → Bool
  has_channel ph i = elim ph.spectro [ none ↦ false | some n ↦ ltb i n ]

  abbrev pub channels : Photon F → Outcome (List F)
  channels ph = or_undefined ph.transmission

  -- getTransmission(i)
  pub get_transmission : Photon F → ℕ → Outcome F
  get_transmission ph i =
      if i == freqobs_index
      then ok ph.transmission_freqobs
      else (require (has_channel ph i) Error.no_such_channel
          >> (do ts ← channels ph; or_undefined (get_elem? ts i)))

module _ {F : Type 0} (double : Double F) where
  open double use {nought, one, mul, exp_minus, lt}

  abbrev pub ones : ℕ → List F → Outcome (List F)
  ones zero ts = ok ts
  ones (suc n) [] = undefined
  ones (suc n) (t ∷ ts) = ones n ts >>= λ rest. ok (one ∷ rest)

  pub reset_transmission : Photon F → Outcome (Photon F)
  reset_transmission ph =
      let ph' = record ph { transmission_freqobs = one } in
      elim ph.spectro [
        | none ↦ ok ph'
        | some n ↦ elim ph.transmission [
          | none ↦ ok ph'
          | some ts ↦ (ones n ts >>= λ us. ok (record ph' { transmission = some us }))
        ]
      ]

  -- _allocateTransmission; what a new array holds before it is reset does not matter.
  pub allocate_transmission : Photon F → Outcome (Photon F)
  unfolding reset_transmission
  allocate_transmission ph = elim ph.spectro [
    | none ↦ ok (record ph { transmission = none })
    | some n ↦
        if n == 0
        then ok (record ph { transmission = none })
        else reset_transmission (record ph { transmission = some (replicate n nought) })
  ]

  -- spectrometer(spr)
  pub set_spectrometer : Option ℕ → Photon F → Outcome (Photon F)
  unfolding allocate_transmission
  set_spectrometer spr ph = allocate_transmission (record ph { spectro = spr })

  abbrev pub greatest : F → ℕ → List F → Outcome F
  greatest transmax zero ts = ok transmax
  greatest transmax (suc n) [] = undefined
  greatest transmax (suc n) (t ∷ ts) = greatest (if lt transmax t then t else transmax) n ts

  -- getTransmissionMax
  pub get_transmission_max : Photon F → Outcome F
  get_transmission_max ph = elim ph.spectro [
    | none ↦ ok ph.transmission_freqobs
    | some zero ↦ ok nought
    | some (suc n) ↦ (do ts ← channels ph; greatest nought (suc n) ts)
  ]

  -- transmit(i, t)
  pub transmit : ℕ → F → Photon F → Outcome (Photon F)
  transmit i t ph =
      if i == freqobs_index
      then ok (record ph { transmission_freqobs = mul ph.transmission_freqobs t })
      else (require (has_channel ph i) Error.no_such_channel >> (do
        ts ← channels ph
        u ← or_undefined (get_elem? ts i)
        ok (record ph { transmission = some (set ts i (mul u t)) })))

  -- The loop of transfer, over Inu, transmission_ and aInu.
  abbrev pub attenuate : ℕ → List F → List F → List F → Outcome (List F × List F)
  attenuate zero is ts bs = ok (is, ts)
  attenuate (suc n) (i ∷ is) (t ∷ ts) (a ∷ bs) =
      attenuate n is ts bs >>= λ r. ok (mul i t ∷ r.0, mul t (exp_minus a) ∷ r.1)
  attenuate (suc n) is ts bs = undefined

  -- transfer(Inu, ..., aInu, ...): the intensities and the photon afterwards
  pub transfer : List F → List F → Photon F → Outcome (List F × Photon F)
  transfer inu ainu ph = elim ph.spectro [
    | none ↦ ok (inu, ph)
    | some zero ↦ ok (inu, ph)
    | some (suc n) ↦ (do
      ts ← channels ph
      r ← attenuate (suc n) inu ts ainu
      ok (r.0, record ph { transmission = some r.1 }))
  ]

  -- Refined::transmit: the refined photon shares the array of its parent, and has an observed frequency
  -- of its own. The parent and the refined photon afterwards.
  pub refined_transmit : ℕ → F → Photon F → Photon F → Outcome (Photon F × Photon F)
  unfolding transmit
  refined_transmit i t parent refined = do
    parent' ← transmit i t parent
    if i == freqobs_index
        then ok (
          parent',
          record refined {
            transmission_freqobs = parent'.transmission_freqobs;
            transmission = parent'.transmission;
          },
        )
        else ok (parent', record refined { transmission = parent'.transmission })
