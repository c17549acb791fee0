-- ===== src/Astrobj/Complex/Bounds.antt =====
-- The bounds and the metric of a complex object.
use gyoto.Prelude.{
  ℕ, zero, suc, ◌+◌, ◌^◌, ◌≡◌, ◌<◌, refl, ap, Bool, true, false, Bool-cases, ◌⊎◌, inl, inr, ltb,
  Option, none, some, List, [], ◌∷◌, ◌++◌, map, length, length-append, get_elem?, ok, undefined,
  arith,
}
use gyoto.Astrobj.Complex.{
  Objects, Complex, greatest, complex_r_max, is_set, append, set_all_metrics,
}

-- Comparison of doubles that are numbers: nothing is less than itself, and "not less" is transitive.
pub record IsOrder {F : Type 0} (lt : F → F → Bool) : Type 0 where
  pub irreflexive : (a : F) → lt a a ≡ false
  pub not_lt-trans : (a b c : F) → lt b a ≡ false → lt c b ≡ false → lt c a ≡ false
  pub asymmetric : (a b : F) → lt a b ≡ true → lt b a ≡ false

module _ {E R M F S : Type 0} (objects : Objects E R M F S) where
  open objects use {r_max, delta_max, lt, dbl_max, metric_of, set_metric, is_thread_safe}

  greatest_lem :
      (o : IsOrder lt) (rmax : F) (es : List E)
      → (lt (greatest objects rmax es) rmax ≡ false)
        × ((i : ℕ) (e : E)
            → get_elem? es i ≡ some e
            → lt (greatest objects rmax es) (r_max e) ≡ false)
        × ((greatest objects rmax es ≡ rmax)
            ⊎ ((i : ℕ) × (e : E) × (get_elem? es i ≡ some e)
                × (greatest objects rmax es ≡ r_max e)))
  greatest_lem o rmax [] = (o.irreflexive rmax, λ i e q. cc, inl refl)
  greatest_lem o rmax (e ∷ es) = elim (Bool-cases (lt rmax (r_max e))) [
    | inl up ↦
        let (above, all, from) = greatest_lem o (r_max e) es in
        rw up (
          o.not_lt-trans rmax (r_max e) _ (o.asymmetric rmax (r_max e) up) above,
          at_or_later above all,
          inr (elim from [ inl q ↦ (0, e, refl, q) | inr (i, d, q, r) ↦ (suc i, d, q, r) ]),
        )
    | inr down ↦
        let (above, all, from) = greatest_lem o rmax es in
        rw down (
          above,
          at_or_later (o.not_lt-trans (r_max e) rmax _ down above) all,
          elim from [ inl q ↦ inl q | inr (i, d, q, r) ↦ inr (suc i, d, q, r) ],
        )
  ]
    where
      at_or_later :
          {g : F}
          → lt g (r_max e) ≡ false
          → ((i : ℕ) (d : E) → get_elem? es i ≡ some d → lt g (r_max d) ≡ false)
          → (i : ℕ) (d : E) → get_elem? (e ∷ es) i ≡ some d
          → lt g (r_max d) ≡ false
      at_or_later now later zero d q = let same : e ≡ d = cc in rw⁻¹ same now
      at_or_later now later (suc i) d q = later i d q

  -- rMax of at least one object is the rMax of one of them, and none has a greater one; of no object it
  -- reads past the end of the array.
  pub complex_r_max_lem :
      (o : IsOrder lt) (c : Complex E M F)
      → ((length c.elements ≡ 0) → complex_r_max objects c ≡ undefined)
        × (0 < length c.elements
            → (r : F) × (complex_r_max objects c ≡ ok r)
              × ((i : ℕ) (e : E) → get_elem? c.elements i ≡ some e → lt r (r_max e) ≡ false)
              × ((i : ℕ) × (e : E) × (get_elem? c.elements i ≡ some e) × (r ≡ r_max e)))
  unfolding complex_r_max
  complex_r_max_lem o c = by_length c.elements
    where
      by_length :
          (es : List E)
          → ((length es ≡ 0) → complex_r_max objects (record c { elements = es }) ≡ undefined)
            × (0 < length es
                → (r : F) × (complex_r_max objects (record c { elements = es }) ≡ ok r)
                  × ((i : ℕ) (e : E) → get_elem? es i ≡ some e → lt r (r_max e) ≡ false)
                  × ((i : ℕ) × (e : E) × (get_elem? es i ≡ some e) × (r ≡ r_max e)))
      by_length [] = (λ e. refl, λ h. absurd (omega arith))
      by_length (e ∷ es) = (
        λ h. absurd (omega (arith, h)),
        λ h.
            let (above, all, from) = greatest_lem o (r_max e) es in
            (
              greatest objects (r_max e) es,
              refl,
              λ i d q. first_or_later above all i d q,
              elim from [ inl q ↦ (0, e, refl, q) | inr (i, d, q, r) ↦ (suc i, d, q, r) ],
            ),
      )
        where
          first_or_later :
              {g : F}
              → lt g (r_max e) ≡ false
              → ((i : ℕ) (d : E) → get_elem? es i ≡ some d → lt g (r_max d) ≡ false)
              → (i : ℕ) (d : E) → get_elem? (e ∷ es) i ≡ some d
              → lt g (r_max d) ≡ false
          first_or_later now later zero d q = let same : e ≡ d = cc in rw⁻¹ same now
          first_or_later now later (suc i) d q = later i d q

  -- Every object has the metric of the whole.
  pub SharesMetric : Complex E M F → Type 0
  SharesMetric c = (i : ℕ) (e : E) → get_elem? c.elements i ≡ some e → metric_of e ≡ c.metric

  get_elem?-map_set :
      (gg : Option M) (es : List E) (i : ℕ) (e : E)
      → ((d : E) → metric_of (set_metric gg d) ≡ gg)
      → get_elem? (map (set_metric gg) es) i ≡ some e
      → metric_of e ≡ gg
  get_elem?-map_set gg [] i e law q = cc
  get_elem?-map_set gg (d ∷ es) zero e law q =
      let same : set_metric gg d ≡ e = cc in rw⁻¹ same (law d)
  get_elem?-map_set gg (d ∷ es) (suc i) e law q = get_elem?-map_set gg es i e law q

  -- metric(gg) gives its metric to every object.
  pub set_all_metrics-SharesMetric :
      (gg : Option M) (c : Complex E M F)
      → ((m : Option M) (e : E) → metric_of (set_metric m e) ≡ m)
      → SharesMetric (set_all_metrics objects gg c)
  unfolding set_all_metrics SharesMetric
  set_all_metrics-SharesMetric gg c law i e q = get_elem?-map_set gg c.elements i e (law gg) q

  append-get_elem? :
      (es : List E) (e d : E) (i : ℕ)
      → get_elem? (es ++ (e ∷ [])) i ≡ some d
      → (get_elem? es i ≡ some d) ⊎ (d ≡ e)
  append-get_elem? [] e d zero q = inr cc
  append-get_elem? [] e d (suc i) q = cc
  append-get_elem? (x ∷ es) e d zero q = inl q
  append-get_elem? (x ∷ es) e d (suc i) q = append-get_elem? es e d i q

  -- append keeps it that every object has the metric of the whole, where the whole has a metric or has
  -- no object yet. (An object with a metric that is appended to objects without one sets the metric of
  -- the whole, and not theirs.)
  pub append-SharesMetric :
      (e : E) (c : Complex E M F)
      → ((m : Option M) (d : E) → metric_of (set_metric m d) ≡ m)
      → length c.elements + 1 < 2 ^ 64
      → ((is_set c.metric ≡ true) ⊎ (c.elements ≡ []))
      → SharesMetric c
      → (c' : Complex E M F) × (append objects e c ≡ ok c')
        × (length c'.elements ≡ length c.elements + 1)
        × SharesMetric c'
  unfolding append SharesMetric
  append-SharesMetric e c law room start shares =
      let fits : ltb (length c.elements + 1) (2 ^ 64) ≡ true = ground arith in
      elim (Bool-cases (is_set c.metric)) [
        | inl has ↦ (
          record c { elements = c.elements ++ (set_metric c.metric e ∷ []) },
          rw (fits, has) refl,
          length-append c.elements (set_metric c.metric e ∷ []),
          λ i d q. elim (append-get_elem? c.elements (set_metric c.metric e) d i q) [
            | inl old ↦ shares i d old
            | inr same ↦ rw same (law c.metric e)
          ],
        )
        | inr without ↦ (
          record c { elements = c.elements ++ (e ∷ []); metric = metric_of e },
          rw (fits, without) refl,
          length-append c.elements (e ∷ []),
          λ i d q. elim (append-get_elem? c.elements e d i q) [
            | inl old ↦ elim start [
              | inl has ↦ absurd cc
              | inr empty ↦ let none_there : get_elem? c.elements i ≡ none = rw empty refl in cc
            ]
            | inr same ↦ ap metric_of same
          ],
        )
      ]
