-- ===== src/Astrobj/Complex/Tests.antt =====
-- Runs of a complex object made of numbers.
use gyoto.Prelude.{
  ℕ, zero, suc, ◌≡◌, ◌≢◌, refl, Bool, true, false, ltb, ◌==◌, ◌&&◌, ◌||◌, if◌then◌else◌, Option,
  none, some, [], ◌∷◌, get_elem?, arith,
}
use gyoto.Astrobj.Complex.{Objects, Complex, complex_impact}
use gyoto.Astrobj.Complex.Impact.{complex_impact-keeps, complex_impact-reaches}
use gyoto.Astrobj.Complex.Bounds.{IsOrder}

-- An object is its radius, with its metric. The photon hits those of a radius above 5; what the calls
-- with data fill is one flag for the object of radius 1 and one for all others.
abbrev Ball : Type 0
Ball = ℕ × Option ℕ

abbrev fill_flag : Ball → Bool → Bool × Bool → Bool × Bool
fill_flag e filling (small, big) =
    (small || (filling && (e.0 == 1)), big || (filling && not_one (e.0 == 1)))
  where
    not_one : Bool → Bool
    not_one true = false
    not_one false = true

abbrev balls : Objects Ball ℕ ℕ ℕ (Bool × Bool)
balls = record {
  is_thread_safe = λ e. true;
  metric_of = λ e. e.1;
  set_metric = λ m e. (e.0, m);
  delta_max = λ e. e.0;
  r_max = λ e. e.0;
  impact = λ e ph index filling s. (if ltb 5 e.0 then 1 else 0, fill_flag e filling s);
  refined = λ ph index step. ph;
  get_nelements = λ ph. 4;
  lt = ltb;
  dbl_max = 1000;
}

abbrev pair : Complex Ball ℕ ℕ
pair = record {
  own_thread_safe = true;
  metric = none;
  elements = (1, none) ∷ (9, none) ∷ [];
  step_max = 1;
}

abbrev IsUntouched : Bool × Bool → Type 0
IsUntouched s = s.0 ≡ false

quiet : (e : Ball) (r n : ℕ) (t : Bool × Bool) → IsUntouched t → IsUntouched (fill_flag e false t)
quiet e r n (a, b) p = ground (arith, p)

answered_big :
    (e : Ball)
    → ((i n : ℕ) × (get_elem? pair.elements i ≡ some e)
        × (get_elem? (0 ∷ 1 ∷ []) i ≡ some n)
        × (n ≢ 0))
    → e ≡ (9, none)
answered_big e (zero, n, a, b, ne) = absurd (ne cc)
answered_big e (suc zero, n, a, b, ne) = cc
answered_big e (suc (suc i), n, a, b, ne) = cc

complex_impact-keeps_example : IsUntouched (complex_impact balls 3 5 pair (false, false)).1
complex_impact-keeps_example =
    complex_impact-keeps balls IsUntouched 3 5 pair (false, false) quiet
      (λ e answered r n s p. let big = answered_big e answered in rw big (ground (arith, p))) refl

abbrev IsFilled : Bool × Bool → Type 0
IsFilled s = s.1 ≡ true

always :
    (e : Ball) (r n : ℕ) (filling : Bool) (s : Bool × Bool)
    → IsFilled s
    → IsFilled (fill_flag e filling s)
always e r n filling (a, b) p = rw p refl

complex_impact-reaches_example : IsFilled (complex_impact balls 3 5 pair (false, false)).1
complex_impact-reaches_example =
    complex_impact-reaches balls IsFilled (9, none) 3 5 pair (false, false) always
      (λ r n s. orb_true s.1) (1, 1, refl, refl, λ e. omega (arith, e)) (omega arith) (omega arith)
  where
    orb_true : (b : Bool) → (b || true) ≡ true
    orb_true true = refl
    orb_true false = refl

ltb-IsOrder : IsOrder ltb
ltb-IsOrder = record {
  irreflexive = λ a. ground arith;
  not_lt-trans = λ a b c p q. ground arith;
  asymmetric = λ a b p. ground arith;
}
