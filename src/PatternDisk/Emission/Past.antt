-- ===== src/PatternDisk/Emission/Past.antt =====
-- Past the last azimuth of the pattern, transmission reads the opacity outside its array.
use gyoto.Prelude.{
  ℕ, ◌+◌, ◌*◌, ◌%◌, ◌^◌, ◌≡◌, ◌≢◌, ◌≤◌, ◌<◌, refl, ap, Bool, true, false, not, if◌then◌else◌,
  Option, none, some, List, length, get_elem?-none, Outcome, ok, throws, undefined, Ensures, ◌>>=◌,
  arith,
}
use gyoto.PatternDisk.{PatternDisk, Double}
use gyoto.PatternDisk.Sound.{IsSound, HasSize}
use gyoto.PatternDisk.Cells.{Place, pattern_phi, get_indices}
use gyoto.PatternDisk.Cells.Within.{Rounds, IsInside, get_indices_past}
use gyoto.PatternDisk.Emission.{value_at, dimmed, transmission}

undefined_ne_ok : {A : Type 0} {x : A} → undefined ≡ ok x → ⊥
undefined_ne_ok e = cc

past_le :
    (a b c i j n : ℕ)
    → n ≡ a * b * c
    → a ≡ 1
    → i ≡ b
    → j < c
    → b * c + c < 2 ^ 64
    → (n ≤ i * c + j) × (i * c + j < 2 ^ 64)
past_le a b c i j n e one same less fits =
    let row : i * c ≡ b * c = ap (λ (k : ℕ). k * c) same in
    let all : a * b * c ≡ 1 * b * c = ap (λ (k : ℕ). k * b * c) one in
    let all' : 1 * b * c ≡ b * c = grind arith in omega arith

-- No value is returned.
abbrev pub Fails : {A : Type 0} → Outcome A → Type 0
Fails {A} out = (x : A) → out ≢ ok x

bind-Fails :
    {A B : Type 0} (P : A → Type 0) (call : Outcome A) (next : A → Outcome B)
    → Ensures P call
    → ((a : A) → P a → Fails (next a))
    → Fails (call >>= next)
bind-Fails P (ok a) next h k x e' = k a h x e'
bind-Fails P (throws e) next h k x e' = cc
bind-Fails P undefined next h k x e' = cc

if-Fails :
    {A : Type 0} (b : Bool) (x y : Outcome A) → b ≡ true → Fails y → Fails (if not b then x else y)
if-Fails true x y e h = h
if-Fails false x y e h = cc

module _ {F : Type 0} (double : Double F) (d : PatternDisk F) (rounds_d : Rounds double d) where
  open double use {nought, lt}

  past_index :
      (opac : List F) (i_phi i_r : ℕ)
      → length opac ≡ d.nnu * d.nphi * d.nr
      → d.nnu ≡ 1
      → i_phi ≡ d.nphi
      → i_r < d.nr
      → d.nphi * d.nr + d.nr < 2 ^ 64
      → value_at double opac (i_phi * d.nr + i_r) ≡ undefined
  past_index opac i_phi i_r n mono past less fits =
      let k = i_phi * d.nr + i_r in
      let (beyond, small) =
        past_le d.nnu d.nphi d.nr i_phi i_r (length opac) n mono past less fits in
      let same : k % 2 ^ 64 ≡ k = omega arith in rw (same, get_elem?-none opac k beyond) refl

  dimmed_past :
      (opacity : Option (List F)) (opac : List F) (rounds : ℕ) (place : Place F) (nu dsem : F)
      → opacity ≡ some opac
      → HasSize (d.nnu * d.nphi * d.nr) opacity
      → d.nnu ≡ 1
      → d.nphi * d.nr + d.nr < 2 ^ 64
      → Ensures (λ i. (i.1 ≡ d.nphi) × (i.2 < d.nr)) (get_indices double rounds d place nu)
      → Fails (dimmed double rounds d opacity place nu dsem)
  unfolding dimmed
  dimmed_past none opac rounds place nu dsem e n mono fits past = cc
  dimmed_past (some o) opac rounds place nu dsem e n mono fits past =
      bind-Fails (λ i. (i.1 ≡ d.nphi) × (i.2 < d.nr)) (get_indices double rounds d place nu) _ past
        (λ i q x e'.
          let never : undefined ≡ ok x = rw (past_index o i.1 i.2 n mono q.0 q.1 fits) at e' in
          undefined_ne_ok never)

  -- For a PatternDisk with an opacity whose arrays have their sizes, with one frequency, dimensions that
  -- fit in 64 bits and radiative transfer, and a place inside the radial limits whose azimuth in the
  -- pattern is past the last one, transmission returns no value: getIndices throws, or the opacity is
  -- read past the end of its array.
  pub transmission_past :
      (rounds : ℕ) (place : Place F) (nu dsem : F) (opac : List F)
      → IsSound d
      → d.opacity ≡ some opac
      → d.flag_radtransf ≡ true
      → d.nnu ≡ 1
      → 1 < d.nphi
      → 1 < d.nr
      → d.nphi * d.nr + d.nr < 2 ^ 64
      → IsInside double d d.radius place.r
      → lt (pattern_phi double rounds d place) d.phimin ≡ false
      → lt d.phimax (pattern_phi double rounds d place) ≡ true
      → Fails (transmission double rounds d place nu dsem)
  unfolding transmission
  transmission_past rounds place nu dsem opac h e flag mono azimuths wide fits inside low high =
      if-Fails d.flag_radtransf (ok nought) (dimmed double rounds d d.opacity place nu dsem) flag (
        dimmed_past d.opacity opac rounds place nu dsem e h.opacity_size mono fits (
          get_indices_past double d rounds_d rounds place nu azimuths wide (omega arith) inside low
            high))
