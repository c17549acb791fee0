-- ===== src/Disk3d/Tests.antt =====
-- A disk of two azimuths, two heights and two radii, over natural numbers.
use gyoto.Prelude.{
  ℕ, ◌+◌, ◌-◌, ◌*◌, ◌/◌, ◌%◌, ◌≡◌, refl, true, false, ltb, ◌==◌, none, some, List, [], ◌∷◌, ok,
  arith,
}
use gyoto.PatternDisk.{Double, copy_array}
use gyoto.PatternDisk.Cells.{unwind}
use gyoto.Disk3d.{Disk3d, copy_emissquant, fill_emissquant, set_dimensions, set_zmax, new_disk}
use gyoto.Disk3d.Changes.{
  Change, apply, AllSuit, emissquant, velocity_pointer, highest, IsSound, reached, reached-IsSound,
}
use gyoto.Disk3d.Cells.{
  Cylindrical, remainder, checked_index, unwind_down, get_indices, grid_velocity,
}
use gyoto.Disk3d.Cells.Within.{IsCell, grid_velocity_lem}

abbrev numbers : Double ℕ
numbers = record {
  nought = 0;
  one = 1;
  one_half = 0;
  two_pi = 8;
  infinite = 1000;
  add = λ a b. a + b;
  sub = λ a b. a - b;
  mul = λ a b. a * b;
  div = λ a b. a / b;
  fmod = λ a b. a % b;
  floor = λ a. a;
  exp_minus = λ a. a;
  lt = ltb;
  eq = λ a b. a == b;
  of_size_t = λ n. n;
  to_size_t = λ a. some a;
}

abbrev velocities : List ℕ
velocities =
    1 ∷ 2 ∷ 3 ∷ 4 ∷ 5 ∷ 6 ∷ 7 ∷ 8 ∷ 9 ∷ 10 ∷ 11 ∷ 12 ∷ 13 ∷ 14 ∷ 15 ∷ 16 ∷ 17 ∷ 18 ∷ 19 ∷ 20 ∷ 21
    ∷ 22 ∷ 23 ∷ 24 ∷ []

abbrev disk : Disk3d ℕ
disk = record {
  emissquant = none;
  opacity = none;
  velocity = some velocities;
  dnu = 1;
  nu0 = 0;
  nnu = 1;
  dphi = 4;
  phimin = 0;
  nphi = 2;
  phimax = 4;
  repeat_phi = 1;
  dz = 2;
  zmin = 0;
  nz = 2;
  zmax = 2;
  dr = 2;
  rin = 2;
  nr = 2;
  rout = 4;
  zsym = true;
  t_pattern = 0;
  omega_pattern = 0;
  flag_radtransf = false;
}

-- The outer radius, the upper height and the first azimuth, after a whole turn.
abbrev place : Cylindrical ℕ
place = record { rr = 4; zz = 3; phi = 9; t = 0 }

its_cell : get_indices numbers 1 disk place 0 ≡ ok (0, 0, 1, 1)
unfolding get_indices unwind unwind_down remainder checked_index
its_cell = refl

grid_velocity_lem_example :
    IsCell disk (0, 0, 1, 1)
    × ((v : ℕ × ℕ × ℕ) × (grid_velocity numbers 1 disk velocities place ≡ ok v))
grid_velocity_lem_example =
    grid_velocity_lem numbers 1 disk place velocities (0, 0, 1, 1) (omega arith) refl its_cell

abbrev emissions : List ℕ
emissions = 1 ∷ 2 ∷ 3 ∷ 4 ∷ 5 ∷ 6 ∷ 7 ∷ 8 ∷ []

-- The emission is copied and the pointer to the velocities set; they are left when the emission is copied
-- with other dimensions.
abbrev calls : List (Change ℕ)
calls =
    emissquant (some emissions) (1, 2, 1, 4)
    ∷ velocity_pointer (some velocities)
    ∷ emissquant (some emissions) (1, 2, 2, 2)
    ∷ highest 2
    ∷ []

calls-AllSuit : AllSuit numbers calls
unfolding reached apply copy_emissquant fill_emissquant set_dimensions set_zmax new_disk copy_array
calls-AllSuit = (tt, (refl, (tt, (tt, tt))))

reached-IsSound_example : IsSound (reached numbers calls)
reached-IsSound_example = reached-IsSound numbers calls calls-AllSuit
