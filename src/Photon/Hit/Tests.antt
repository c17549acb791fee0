-- ===== src/Photon/Hit/Tests.antt =====
-- A photon over natural numbers as dates, which never leaves the reach of the object.
use gyoto.Prelude.{ℕ, ◌+◌, refl, true, false, ltb, ◌==◌, some, arith}
use gyoto.Worldline.{Direction}
use gyoto.Worldline.Fill.Tests.{stepper, start, start-IsFilled}
use gyoto.Photon.Crossings.{Equator}
use gyoto.Photon.Iteration.{Tracing}
use gyoto.Photon.Iteration.Backward.{Returns}
use gyoto.Photon.Hit.{hit}
use gyoto.Photon.Hit.Total.{Compares, hit_total}

-- Nothing is counted, and secondary images are kept.
abbrev equator : Equator ℕ ℕ
equator = record {
  counted = false;
  height = λ a b c. c;
  disk_height = λ a b c. c;
  near = λ a b c. ltb a 10;
  product = λ a b. a;
  negative = λ a. false;
  alternate = λ a n. a;
  crossings = λ a. a;
  set_crossings = λ n a. n;
  too_many = λ n. false;
  cancel = λ a. a;
  secondary = true;
}

-- The object is met at the cell zero of the arrays, and the impacts are counted.
abbrev tracing : Tracing ℕ Direction ℕ
tracing = record {
  integrator = stepper;
  tmin = 4;
  radius = some (λ a b c. a);
  r_max = 20;
  infinite = 1000;
  impact = λ w ind a. (ind == 0, a + 1);
  opaque = λ a. false;
  equator = equator;
  clear = λ a. 0;
  darken = λ a. a;
  record_outgoing = λ coord a. a;
  has_data = true;
}

tracing-Compares : Compares tracing
tracing-Compares a b h = ground arith

hit_total_example : Returns tracing start (hit tracing start 0)
hit_total_example =
    hit_total tracing (λ a b c. a) start 7 0 refl refl tracing-Compares start-IsFilled (omega arith)
      refl refl
