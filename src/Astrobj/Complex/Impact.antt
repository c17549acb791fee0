-- ===== src/Astrobj/Complex/Impact.antt =====
-- Which objects a complex object lets fill the properties.
use gyoto.Prelude.{
  ℕ, zero, suc, ◌+◌, ◌-◌, ◌^◌, ◌%◌, ◌≡◌, ◌≢◌, ◌<◌, refl, Bool, true, false, Bool-cases, inl, inr,
  ◌==◌, if◌then◌else◌, some, List, [], ◌∷◌, get_elem?, arith,
}
use gyoto.Astrobj.Complex.{Objects, Complex, probe, sum, visit, visit_down, complex_impact}

module _ {E R M F S : Type 0} (objects : Objects E R M F S) where
  open objects use {impact}

  -- An object that stands at an index where its answer is not zero.
  abbrev Answered : List E → List ℕ → E → Type 0
  Answered es impacts e =
      (i n : ℕ) × (get_elem? es i ≡ some e) × (get_elem? impacts i ≡ some n) × (n ≢ 0)

  sum-zero : (ns : List ℕ) → ((i n : ℕ) → get_elem? ns i ≡ some n → n ≡ 0) → sum ns ≡ 0
  sum-zero [] h = refl
  sum-zero (n ∷ ns) h = omega (arith, h 0 n refl, sum-zero ns (λ i m e. h (suc i) m e))

  sum-lt : (ns : List ℕ) (i n : ℕ) → get_elem? ns i ≡ some n → n ≢ 0 → 0 < sum ns
  sum-lt [] i n e ne = cc
  sum-lt (m ∷ ns) zero n e ne = let same : m ≡ n = cc in omega arith
  sum-lt (m ∷ ns) (suc i) n e ne = omega (arith, sum-lt ns i n e ne)

  module _ (P : S → Type 0) where
    -- A call of Impact with data keeps what P says.
    abbrev Keeps : E → Type 0
    Keeps e = (r : R) (n : ℕ) (s : S) → P s → P (impact e r n true s).1

    probe-keeps :
        (ph : R) (index : ℕ) (es : List E) (s : S)
        → ((e : E) (r : R) (n : ℕ) (t : S) → P t → P (impact e r n false t).1)
        → P s
        → P (probe objects ph index es s).1
    probe-keeps ph index [] s quiet p = p
    probe-keeps ph index (e ∷ es) s quiet p =
        probe-keeps ph index es (impact e ph index false s).1 quiet (quiet e ph index s p)

    visit-keeps :
        (ph : R) (index : ℕ) (es : List E) (impacts : List ℕ) (s : S)
        → ((e : E) → Answered es impacts e → Keeps e)
        → P s
        → P (visit objects ph index es impacts s)
    visit-keeps ph index [] impacts s keeps p = p
    visit-keeps ph index (e ∷ es) [] s keeps p = p
    visit-keeps ph index (e ∷ es) (n ∷ ns) s keeps p =
        let later : (d : E) → Answered es ns d → Keeps d =
          λ d (i, m, a, b, ne). keeps d (suc i, m, a, b, ne) in
        elim (Bool-cases (n == 0)) [
          | inl missed ↦ rw missed (visit-keeps ph index es ns s later p)
          | inr hit ↦
              let ne : n ≢ 0 = ground arith in
              rw hit (
                visit-keeps ph index es ns (impact e ph index true s).1 later
                  (keeps e (0, n, refl, refl, ne) ph index s p))
        ]

    visit_down-keeps :
        (ph : R) (rounds : ℕ) (es : List E) (impacts : List ℕ) (s : S)
        → ((e : E) → Answered es impacts e → Keeps e)
        → P s
        → P (visit_down objects ph rounds es impacts s)
    visit_down-keeps ph zero es impacts s keeps p = p
    visit_down-keeps ph (suc n) es impacts s keeps p =
        visit_down-keeps ph n es impacts (visit objects ph n es impacts s) keeps
          (visit-keeps ph n es impacts s keeps p)

    -- Impact keeps whatever is kept by the calls without data and by the calls with data of those
    -- objects that have answered that the photon hits them: no other object is given the data.
    pub complex_impact-keeps :
        (ph : R) (index : ℕ) (c : Complex E M F) (s : S)
        → ((e : E) (r : R) (n : ℕ) (t : S) → P t → P (impact e r n false t).1)
        → ((e : E) → Answered c.elements (probe objects ph index c.elements s).0 e → Keeps e)
        → P s
        → P (complex_impact objects ph index c s).1
    unfolding complex_impact
    complex_impact-keeps ph index c s quiet keeps p =
        let impacts = (probe objects ph index c.elements s).0 in
        let t = (probe objects ph index c.elements s).1 in
        let refine = objects.refined ph index c.step_max in
        let points = (objects.get_nelements refine + (2 ^ 64 - 1)) % 2 ^ 64 in
        let p' = probe-keeps ph index c.elements s quiet p in
        elim (Bool-cases (sum impacts == 0)) [
          | inl nothing ↦ rw nothing p'
          | inr something ↦ elim (Bool-cases (sum impacts == 1)) [
            | inl one ↦ rw (something, one) (visit-keeps ph index c.elements impacts t keeps p')
            | inr more ↦
                rw (something, more) (visit_down-keeps refine points c.elements impacts t keeps p')
          ]
        ]

  module _ (Q : S → Type 0) (o : E) where
    abbrev Always : Type 0
    Always = (e : E) (r : R) (n : ℕ) (filling : Bool) (s : S) → Q s → Q (impact e r n filling s).1

    abbrev Makes : Type 0
    Makes = (r : R) (n : ℕ) (s : S) → Q (impact o r n true s).1

    visit-always :
        (ph : R) (index : ℕ) (es : List E) (impacts : List ℕ) (s : S)
        → Always
        → Q s
        → Q (visit objects ph index es impacts s)
    visit-always ph index es impacts s always q =
        visit-keeps Q ph index es impacts s (λ e a r n t. always e r n true t) q

    visit-reaches :
        (ph : R) (index : ℕ) (es : List E) (impacts : List ℕ) (s : S)
        → Always
        → Makes
        → Answered es impacts o
        → Q (visit objects ph index es impacts s)
    visit-reaches ph index [] impacts s always makes (i, n, a, b, ne) = cc
    visit-reaches ph index (e ∷ es) [] s always makes (i, n, a, b, ne) = cc
    visit-reaches ph index (e ∷ es) (m ∷ ns) s always makes (zero, n, a, b, ne) =
        let same_answer : m ≡ n = cc in
        let same_object : e ≡ o = cc in
        let hit : (m == 0) ≡ false = ground arith in
        rw (hit, same_object)
          (visit-always ph index es ns (impact o ph index true s).1 always (makes ph index s))
    visit-reaches ph index (e ∷ es) (m ∷ ns) s always makes (suc i, n, a, b, ne) =
        visit-reaches ph index es ns (if m == 0 then s else (impact e ph index true s).1) always
          makes (i, n, a, b, ne)

    visit_down-always :
        (ph : R) (rounds : ℕ) (es : List E) (impacts : List ℕ) (s : S)
        → Always
        → Q s
        → Q (visit_down objects ph rounds es impacts s)
    visit_down-always ph rounds es impacts s always q =
        visit_down-keeps Q ph rounds es impacts s (λ e a r n t. always e r n true t) q

    -- An object that has answered that it is hit is given the data: what its call with data makes true
    -- and no call undoes is true after Impact. Where several objects are hit, the refined photon must
    -- have at least two points.
    pub complex_impact-reaches :
        (ph : R) (index : ℕ) (c : Complex E M F) (s : S)
        → Always
        → Makes
        → Answered c.elements (probe objects ph index c.elements s).0 o
        → 1 < objects.get_nelements (objects.refined ph index c.step_max)
        → objects.get_nelements (objects.refined ph index c.step_max) < 2 ^ 64
        → Q (complex_impact objects ph index c s).1
    unfolding complex_impact
    complex_impact-reaches ph index c s always makes (i, n, a, b, ne) two fits =
        let impacts = (probe objects ph index c.elements s).0 in
        let t = (probe objects ph index c.elements s).1 in
        let refine = objects.refined ph index c.step_max in
        let k = objects.get_nelements refine - 2 in
        let something : (sum impacts == 0) ≡ false = ground (arith, sum-lt impacts i n b ne) in
        elim (Bool-cases (sum impacts == 1)) [
          | inl one ↦
              rw (something, one)
                (visit-reaches ph index c.elements impacts t always makes (i, n, a, b, ne))
          | inr more ↦
              let points : (objects.get_nelements refine + (2 ^ 64 - 1)) % 2 ^ 64 ≡ suc k =
                omega arith in
              rw (something, more, points)
                (visit_down-always refine k c.elements impacts
                  (visit objects refine k c.elements impacts t) always
                  (visit-reaches refine k c.elements impacts t always makes (i, n, a, b, ne)))
        ]

  -- Impact answers 1 where some object answers that it is hit, and 0 where all answer 0.
  pub complex_impact_lem :
      (ph : R) (index : ℕ) (c : Complex E M F) (s : S)
      → let impacts = (probe objects ph index c.elements s).0 in
        ((i n : ℕ)
          → get_elem? impacts i ≡ some n
          → n ≢ 0
          → (complex_impact objects ph index c s).0 ≡ 1)
        × (((i n : ℕ) → get_elem? impacts i ≡ some n → n ≡ 0)
            → complex_impact objects ph index c s ≡ (0, (probe objects ph index c.elements s).1))
  unfolding complex_impact
  complex_impact_lem ph index c s =
      let impacts = (probe objects ph index c.elements s).0 in
      (
        λ i n e ne.
            let something : (sum impacts == 0) ≡ false = ground (arith, sum-lt impacts i n e ne) in
            elim (Bool-cases (sum impacts == 1)) [
              | inl one ↦ rw (something, one) refl
              | inr more ↦ rw (something, more) refl
            ],
        λ h.
            let nothing : (sum impacts == 0) ≡ true = ground (arith, sum-zero impacts h) in
            rw nothing refl,
      )
