-- ===== src/Spectrometer/Uniform/Tests.antt =====
-- Runs of Uniform over natural numbers.
use gyoto.Prelude.{ℕ, ◌+◌, ◌*◌, ◌/◌, ◌-◌, ◌<◌, ◌≡◌, refl, true, ◌==◌, some, [], ◌∷◌, arith}
use gyoto.Spectrometer.{IsSound}
use gyoto.Spectrometer.Uniform.{Double, Uniform, freq, construct, set_nsamples}
use gyoto.Spectrometer.Uniform.Channels.{IsChannel, set_nsamples_lem}

abbrev double : Double ℕ
double = record {
  of_size_t = λ n. n;
  add = λ a b. a + b;
  sub = λ a b. a - b;
  mul = λ a b. a * b;
  div = λ a b. a / b;
  pow10 = λ a. a;
  fabs = λ a. a;
  is_zero = λ a. a == 0;
  one_half = 1;
  gyoto_c = 299792458;
  dbl_max = 1000000;
  nought = 0;
}

abbrev two_channels : Uniform ℕ
two_channels = construct double 2 10 30 (some freq)

two_channels_boundaries : two_channels.generic.boundaries ≡ 10 ∷ 20 ∷ 30 ∷ []
unfolding construct
two_channels_boundaries = refl

set_nsamples_lem_example :
    let (u', told) = set_nsamples double 4 two_channels in
    (told ≡ true)
    × (u'.generic.nsamples ≡ 4)
    × IsSound u'.generic
    × ((j : ℕ) → j < 4 → IsChannel double u'.generic freq (10, 30) j)
unfolding construct
set_nsamples_lem_example = set_nsamples_lem double 4 freq two_channels (omega arith) refl
