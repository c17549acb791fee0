-- ===== src/Worldline/Locate/Tests.antt =====
-- Runs of getCoord over natural numbers as dates.
use gyoto.Prelude.{
  ◌*◌, some, none, if◌then◌else◌, ℕ, ◌+◌, ◌≡◌, refl, List, [], ◌∷◌, false, ◌==◌, Outcome, ok,
  throws, undefined, map,
}
use gyoto.Worldline.{store, expand, Worldline, Sample, x0}
use gyoto.Worldline.Fill.{fill}
use gyoto.Worldline.Fill.Tests.{stepper, sure, start}
use gyoto.Worldline.Locate.{Geometry, get_coord}

abbrev flat : Geometry ℕ
flat = record {
  spherical = false;
  check_phi_theta = λ theta phi theta_dot. (theta, phi, theta_dot);
  interpolate = λ low high date s. low s * 100 + high s;
}

abbrev first_dates : Outcome (Worldline ℕ × List (Sample ℕ)) → List ℕ
first_dates (ok (w, coords)) = map (λ coord. coord x0) coords
first_dates (throws e) = []
first_dates undefined = []

-- Steps of one from 7: every date is that of a sample, forward, backward and in between.
steps :
    first_dates (get_coord stepper sure flat false start (10 ∷ 5 ∷ 8 ∷ 7 ∷ []))
    ≡ 10 ∷ 5 ∷ 8 ∷ 7 ∷ []
unfolding get_coord fill store expand
steps = refl

-- Samples at the dates 7, 9 and 12.
abbrev line : Worldline ℕ
line = record {
  x_size = 5;
  imin = 1;
  i0 = 1;
  imax = 3;
  parallel_transport = false;
  cells = λ s k.
      if k == 1 then some 7 else (if k == 2 then some 9 else (if k == 3 then some 12 else none));
}

abbrev asked : List ℕ
asked = 10 ∷ 8 ∷ 12 ∷ 7 ∷ 11 ∷ 9 ∷ []

-- Between two samples, both are seen.
between_samples :
    first_dates (get_coord stepper sure flat false line asked) ≡ 912 ∷ 709 ∷ 12 ∷ 7 ∷ 912 ∷ 9 ∷ []
unfolding get_coord fill
between_samples = refl
