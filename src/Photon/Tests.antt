-- ===== src/Photon/Tests.antt =====
-- Transmissions that are natural numbers.
use gyoto.Prelude.{ℕ, ◌+◌, ◌*◌, ◌≡◌, refl, ltb, some, [], ◌∷◌, ok}
use gyoto.Photon.{Double, Photon, get_transmission}
use gyoto.Photon.Transmission.{IsAllocated}

abbrev double : Double ℕ
double = record { nought = 0; one = 1; mul = λ a b. a * b; exp_minus = λ a. a + 1; lt = ltb }

abbrev two_channels : Photon ℕ
two_channels = record {
  spectro = some 2;
  transmission_freqobs = 1;
  transmission = some (3 ∷ 5 ∷ []);
}

two_channels-IsAllocated : IsAllocated 2 two_channels
two_channels-IsAllocated = record { samples = refl; array = 3 ∷ 5 ∷ []; there = refl; all = refl }

second_channel : get_transmission two_channels 1 ≡ ok 5
unfolding get_transmission
second_channel = refl
