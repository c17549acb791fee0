-- ===== src/Astrobj/Complex.antt =====
-- Gyoto::Astrobj::Complex, in lib/ComplexAstrobj.C: several objects as one. The objects are a
-- parameter: `E` is the type of one, `R` of a photon, plain or refined, `M` of a metric, `F` is
-- `double`, and `S` is what the calls of Impact may change (the photon's fluxes and the properties).
pub mod Impact
pub mod Bounds
mod Tests
use gyoto.Prelude.{
  ℕ, zero, suc, ◌+◌, ◌-◌, ◌^◌, ◌%◌, Bool, true, false, ◌&&◌, ◌==◌, ltb, leb, if◌then◌else◌, Option,
  none, some, List, [], ◌∷◌, ◌++◌, map, length, get_elem?, Outcome, ok, undefined, or_undefined,
  require, Error, ◌>>=◌, ◌>>◌,
}

pub record Objects (E R M F S : Type 0) : Type 0 where
  pub is_thread_safe : E → Bool
  pub metric_of : E → Option M
  pub set_metric : Option M → E → E
  pub delta_max : E → F
  pub r_max : E → F
  -- Impact(ph, index, data): the number that it returns, with `data` or with a null pointer
  pub impact : E → R → ℕ → Bool → S → ℕ × S
  -- Photon::Refined(ph, index, 1, step_max), and the number of its points
  pub refined : R → ℕ → F → R
  pub get_nelements : R → ℕ
  pub lt : F → F → Bool
  pub dbl_max : F

pub record Complex (E M F : Type 0) : Type 0 where
  pub own_thread_safe : Bool
  pub metric : Option M
  pub elements : List E
  pub step_max : F

module _ {E M F : Type 0} where
  abbrev pub get_cardinal : Complex E M F → ℕ
  get_cardinal c = length c.elements

  -- operator[]
  pub element : ℕ → Complex E M F → Outcome E
  element i c =
      require (ltb i (get_cardinal c)) Error.no_such_element
      >> or_undefined (get_elem? c.elements i)

module _ {ℓ} {A : Type ℓ} where
  -- The loop of remove: all elements but the one at `i`.
  abbrev pub all_but : ℕ → List A → List A
  all_but i [] = []
  all_but zero (e ∷ es) = es
  all_but (suc i) (e ∷ es) = e ∷ all_but i es

  abbrev pub is_set : Option A → Bool
  is_set none = false
  is_set (some a) = true

module _ {E M F : Type 0} where
  pub remove : ℕ → Complex E M F → Outcome (Complex E M F)
  remove i c =
      require (ltb i (get_cardinal c)) Error.no_such_element
      >> ok (record c { elements = all_but i c.elements })

-- The count of impacts
abbrev pub sum : List ℕ → ℕ
sum [] = 0
sum (n ∷ ns) = n + sum ns

module _ {E R M F S : Type 0} (objects : Objects E R M F S) where
  open objects use {
    is_thread_safe, metric_of, set_metric, delta_max, r_max, impact, refined, get_nelements, lt,
    dbl_max,
  }

  -- append, where `cardinal_+1` is a size_t; the metric of the first object that has one is kept.
  pub append : E → Complex E M F → Outcome (Complex E M F)
  append e c =
      require (ltb (get_cardinal c + 1) (2 ^ 64)) Error.overflow
      >> ok (
          if is_set c.metric
          then record c { elements = c.elements ++ (set_metric c.metric e ∷ []) }
          else record c { elements = c.elements ++ (e ∷ []); metric = metric_of e })

  -- metric(gg)
  pub set_all_metrics : Option M → Complex E M F → Complex E M F
  set_all_metrics gg c = record c { metric = gg; elements = map (set_metric gg) c.elements }

  abbrev pub all_safe : Bool → List E → Bool
  all_safe safe [] = safe
  all_safe safe (e ∷ es) = all_safe (safe && is_thread_safe e) es

  -- isThreadSafe
  pub complex_thread_safe : Complex E M F → Bool
  complex_thread_safe c = all_safe c.own_thread_safe c.elements

  abbrev pub least : F → List E → F
  least h1max [] = h1max
  least h1max (e ∷ es) = least (if lt (delta_max e) h1max then delta_max e else h1max) es

  -- deltaMax(coord), for the coordinates at which the objects' `delta_max` is meant
  pub complex_delta_max : Complex E M F → F
  complex_delta_max c = least dbl_max c.elements

  abbrev pub greatest : F → List E → F
  greatest rmax [] = rmax
  greatest rmax (e ∷ es) = greatest (if lt rmax (r_max e) then r_max e else rmax) es

  -- rMax, which reads elements_[0] in any case
  pub complex_r_max : Complex E M F → Outcome F
  complex_r_max c = elim c.elements [ [] ↦ undefined | e ∷ es ↦ ok (greatest (r_max e) es) ]

  -- The first loop of Impact: what each object answers when there is nothing to fill.
  abbrev pub probe : R → ℕ → List E → S → List ℕ × S
  probe ph index [] s = ([], s)
  probe ph index (e ∷ es) s =
      let answer = impact e ph index false s in
      let rest = probe ph index es answer.1 in (answer.0 ∷ rest.0, rest.1)

  -- if (impact[i]) elements_[i]->Impact(ph, index, data), for each i
  abbrev pub visit : R → ℕ → List E → List ℕ → S → S
  visit ph index [] impacts s = s
  visit ph index (e ∷ es) [] s = s
  visit ph index (e ∷ es) (n ∷ ns) s =
      visit ph index es ns (if n == 0 then s else (impact e ph index true s).1)

  -- The loop over the points of the refined photon, from `rounds - 1` down to 0.
  abbrev pub visit_down : R → ℕ → List E → List ℕ → S → S
  visit_down ph zero es impacts s = s
  visit_down ph (suc n) es impacts s = visit_down ph n es impacts (visit ph n es impacts s)

  -- Impact with data. The index n_refine-2 is a size_t, and so is the -1 at which the loop ends.
  pub complex_impact : R → ℕ → Complex E M F → S → ℕ × S
  complex_impact ph index c s =
      let (impacts, s') = probe ph index c.elements s in
      let n_impact = sum impacts in
      if n_impact == 0
      then (0, s')
      else (if n_impact == 1
          then (1, visit ph index c.elements impacts s')
          else (let refine = refined ph index c.step_max in
              (
                1,
                visit_down refine ((get_nelements refine + (2 ^ 64 - 1)) % 2 ^ 64) c.elements
                    impacts s',
              )))
