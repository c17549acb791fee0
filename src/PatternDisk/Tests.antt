-- ===== src/PatternDisk/Tests.antt =====
-- A disk of three azimuths and three radii, over natural numbers.
use gyoto.Prelude.{
  ℕ, ◌+◌, ◌-◌, ◌*◌, ◌/◌, ◌%◌, ◌≡◌, refl, true, false, ltb, ◌==◌, none, some, List, [], ◌∷◌, ok,
  undefined, arith,
}
use gyoto.PatternDisk.{
  PatternDisk, Double, clone, copy_intensity, fill_emission, set_dimensions, new_disk,
}
use gyoto.PatternDisk.Sound.{IsSound}
use gyoto.PatternDisk.Changes.{
  Change, apply, AllSuit, radius_pointer, intensity, opacity, after, after-IsSound, clone_lem,
}
use gyoto.PatternDisk.Cells.{Place, unwind}
use gyoto.PatternDisk.Cells.Within.{Rounds}
use gyoto.PatternDisk.Emission.{emission, transmission, grid_velocity}
use gyoto.PatternDisk.Emission.Reads.{IsDefined}
use gyoto.PatternDisk.Emission.Safe.{emission-IsDefined, grid_velocity-IsDefined}
use gyoto.PatternDisk.Emission.Past.{Fails, transmission_past}

abbrev numbers : Double ℕ
numbers = record {
  nought = 0;
  one = 1;
  one_half = 0;
  two_pi = 8;
  infinite = 1000;
  add = λ a b. a + b;
  sub = λ a b. a - b;
  mul = λ a b. a * b;
  div = λ a b. a / b;
  fmod = λ a b. a % b;
  floor = λ a. a;
  exp_minus = λ a. a;
  lt = ltb;
  eq = λ a b. a == b;
  of_size_t = λ n. n;
  to_size_t = λ a. some a;
}

abbrev pattern_values : List ℕ
pattern_values = 10 ∷ 20 ∷ 30 ∷ 11 ∷ 21 ∷ 31 ∷ 12 ∷ 22 ∷ 32 ∷ []

abbrev disk : PatternDisk ℕ
disk = record {
  emission = some pattern_values;
  opacity = some pattern_values;
  velocity = none;
  radius = none;
  omega = 0;
  t0 = 0;
  dnu = 1;
  nu0 = 0;
  nnu = 1;
  dphi = 2;
  phimin = 0;
  nphi = 3;
  phimax = 4;
  repeat_phi = 1;
  dr = 2;
  nr = 3;
  rin = 2;
  rout = 6;
  flag_radtransf = true;
}

abbrev bright : PatternDisk ℕ
bright = record disk { opacity = none; flag_radtransf = false }

abbrev with_radii : PatternDisk ℕ
with_radii = record disk { radius = some (2 ∷ 4 ∷ 6 ∷ []) }

disk-IsSound : IsSound disk
disk-IsSound = record {
  grid = omega arith;
  emission_size = refl;
  opacity_size = refl;
  velocity_size = tt;
  radius_size = tt;
}

bright-IsSound : IsSound bright
bright-IsSound = record {
  grid = omega arith;
  emission_size = refl;
  opacity_size = tt;
  velocity_size = tt;
  radius_size = tt;
}

with_radii-IsSound : IsSound with_radii
with_radii-IsSound = record {
  grid = omega arith;
  emission_size = refl;
  opacity_size = refl;
  velocity_size = tt;
  radius_size = refl;
}

disk-Rounds : Rounds numbers disk
disk-Rounds = record {
  nu_rounds = λ nu h. (_, refl);
  phi_rounds = λ phi lo hi. ((phi - 0) / 2 + 1, refl, ground arith);
  r_rounds = λ r lo hi. ((r - 2) / 2 + 1, refl, omega arith);
}

bright-Rounds : Rounds numbers bright
bright-Rounds = record {
  nu_rounds = λ nu h. (_, refl);
  phi_rounds = λ phi lo hi. ((phi - 0) / 2 + 1, refl, ground arith);
  r_rounds = λ r lo hi. ((r - 2) / 2 + 1, refl, omega arith);
}

-- A point of the grid, and one past its last azimuth.
abbrev here : Place ℕ
here = record { r = 4; phi = 2; t = 0 }

abbrev past : Place ℕ
past = record { r = 4; phi = 6; t = 0 }

emission-IsDefined_example : IsDefined (emission numbers 3 bright here 0 1)
emission-IsDefined_example =
    emission-IsDefined numbers bright bright-Rounds 3 here 0 1 pattern_values bright-IsSound
      (omega arith) refl refl refl (refl, refl)

abbrev rates : List ℕ
rates = 1 ∷ 1 ∷ 1 ∷ 1 ∷ 1 ∷ 1 ∷ 1 ∷ 1 ∷ 1 ∷ 2 ∷ 2 ∷ 2 ∷ 2 ∷ 2 ∷ 2 ∷ 2 ∷ 2 ∷ 2 ∷ []

grid_velocity-IsDefined_example : IsDefined (grid_velocity numbers 3 bright rates here)
grid_velocity-IsDefined_example =
    grid_velocity-IsDefined numbers bright bright-Rounds 3 here rates pattern_values bright-IsSound
      (omega arith) refl refl refl (refl, refl)

transmission_past_example : Fails (transmission numbers 3 disk past 0 1)
unfolding unwind
transmission_past_example =
    transmission_past numbers disk disk-Rounds 3 past 0 1 pattern_values disk-IsSound refl refl refl
      (omega arith) (omega arith) (omega arith) (refl, refl) refl refl

-- The emission is copied, then the pointer to its radii set; an opacity with other dimensions throws.
abbrev calls : List (Change ℕ)
calls =
    opacity (some (1 ∷ [])) (1, 2, 2)
    ∷ radius_pointer (some (2 ∷ 4 ∷ 6 ∷ []))
    ∷ intensity (some pattern_values) (1, 3, 3)
    ∷ []

calls-AllSuit : AllSuit numbers calls
unfolding after apply copy_intensity fill_emission set_dimensions new_disk
calls-AllSuit = (tt, (refl, (tt, tt)))

after-IsSound_example : IsSound (after numbers calls)
after-IsSound_example = after-IsSound numbers calls calls-AllSuit

clone_lem_example :
    (with_radii.radius ≡ none → clone numbers with_radii ≡ ok with_radii)
    × ((radii : List ℕ) → with_radii.radius ≡ some radii → clone numbers with_radii ≡ undefined)
clone_lem_example = clone_lem numbers with_radii with_radii-IsSound (omega arith) (omega arith)
