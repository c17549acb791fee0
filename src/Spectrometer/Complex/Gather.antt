-- ===== src/Spectrometer/Complex/Gather.antt =====
-- What tell makes of sound elements.
use gyoto.Prelude.{
  ℕ, zero, suc, ◌+◌, ◌*◌, ◌≡◌, ◌<◌, refl, ap, ◌∙◌, inl, inr, true, leb, ok, take, Option, some,
  List, [], ◌∷◌, ◌++◌, map, length, length-append, length-map, get_elem?, get_elem?-append_cases,
  get_elem?-append_left, get_elem?-append_right, arith,
}
use mathlib.Core.List.{map-append, append_assoc}
use gyoto.Spectrometer.{Generic, IsSound, ends}
use gyoto.Spectrometer.Complex.{first_cells, count, copy, copy_chanind, gather}

get_elem?-map :
    (f : ℕ → ℕ) (xs : List ℕ) (k : ℕ) {c : ℕ}
    → get_elem? (map f xs) k ≡ some c
    → (x : ℕ) × (get_elem? xs k ≡ some x) × (c ≡ f x)
get_elem?-map f [] k e = cc
get_elem?-map f (x ∷ xs) zero e = (x, refl, cc)
get_elem?-map f (x ∷ xs) (suc k) e = get_elem?-map f xs k e

take-length {ℓ} : {A : Type ℓ} (xs : List A) → take (length xs) xs ≡ xs
take-length [] = refl
take-length (x ∷ xs) = ap (λ ys. x ∷ ys) (take-length xs)

first_cells_all {ℓ} : {A : Type ℓ} (n : ℕ) (xs : List A) → length xs ≡ n → first_cells n xs ≡ ok xs
first_cells_all n xs e =
    let fits : leb (length xs) (length xs) ≡ true = ground arith in
    rw⁻¹ e (rw (fits, take-length xs) refl)

module _ {F : Type 0} where
  abbrev pub AllSound : List (Generic F) → Type 0
  AllSound [] = Unit
  AllSound (e ∷ es) = IsSound e × AllSound es

  abbrev pub all_ends : List (Generic F) → List (Option F)
  all_ends [] = []
  all_ends (e ∷ es) = ends e ++ all_ends es

  -- The arrays one after the other, as they are.
  abbrev joined : (Generic F → List F) → List (Generic F) → List F
  joined array [] = []
  joined array (e ∷ es) = array e ++ joined array es

  abbrev joined_chanind : ℕ → List (Generic F) → List ℕ
  joined_chanind boffset [] = []
  joined_chanind boffset (e ∷ es) =
      map (λ c. c + boffset) e.chanind ++ joined_chanind (boffset + e.nboundaries) es

  copy-joined :
      (announced : Generic F → ℕ) (array : Generic F → List F) (es : List (Generic F))
      → ((e : Generic F) → IsSound e → length (array e) ≡ announced e)
      → AllSound es
      → copy announced array es ≡ ok (joined array es)
  copy-joined announced array [] h s = refl
  copy-joined announced array (e ∷ es) h (s, ss) =
      rw (first_cells_all (announced e) (array e) (h e s), copy-joined announced array es h ss) refl

  copy_chanind-joined :
      (boffset : ℕ) (es : List (Generic F))
      → AllSound es
      → copy_chanind boffset es ≡ ok (joined_chanind boffset es)
  copy_chanind-joined boffset [] s = refl
  copy_chanind-joined boffset (e ∷ es) (s, ss) =
      rw
        (
          first_cells_all (e.nsamples * 2) e.chanind s.all_channels,
          copy_chanind-joined (boffset + e.nboundaries) es ss,
        )
        refl

  length-joined_boundaries :
      (es : List (Generic F)) → AllSound es → length (joined (λ e. e.boundaries) es) ≡ (count es).1
  length-joined_boundaries [] s = refl
  length-joined_boundaries (e ∷ es) (s, ss) =
      length-append e.boundaries _ ∙ omega (arith, s.all_boundaries, length-joined_boundaries es ss)

  length-joined :
      (array : Generic F → List F) (es : List (Generic F))
      → ((e : Generic F) → IsSound e → length (array e) ≡ e.nsamples)
      → AllSound es
      → length (joined array es) ≡ (count es).0
  length-joined array [] h s = refl
  length-joined array (e ∷ es) h (s, ss) =
      length-append (array e) _ ∙ omega (arith, h e s, length-joined array es h ss)

  length-joined_chanind :
      (boffset : ℕ) (es : List (Generic F))
      → AllSound es
      → length (joined_chanind boffset es) ≡ (count es).0 * 2
  length-joined_chanind boffset [] s = omega arith
  length-joined_chanind boffset (e ∷ es) (s, ss) =
      length-append (map (λ c. c + boffset) e.chanind) _
      ∙ omega (
        arith,
        length-map e.chanind (λ c. c + boffset),
        s.all_channels,
        length-joined_chanind (boffset + e.nboundaries) es ss,
      )

  joined_chanind-lt :
      (boffset : ℕ) (es : List (Generic F))
      → AllSound es
      → (k c : ℕ) → get_elem? (joined_chanind boffset es) k ≡ some c
      → c < boffset + (count es).1
  joined_chanind-lt boffset [] s k c e = cc
  joined_chanind-lt boffset (g ∷ es) (s, ss) k c e =
      elim (get_elem?-append_cases (map (λ i. i + boffset) g.chanind) _ k e) [
        | inl first ↦
            let (x, q, r) = get_elem?-map (λ i. i + boffset) g.chanind k first in
            omega (arith, s.in_bounds k x q, r)
        | inr (j, later) ↦
            omega (arith, joined_chanind-lt (boffset + g.nboundaries) es ss j c later)
      ]

  -- Raised indices find in the longer list what the indices find in the part.
  raised :
      (before part after : List F) (n : ℕ) (cs : List ℕ)
      → n ≡ length before
      → ((k c : ℕ) → get_elem? cs k ≡ some c → c < length part)
      → map (get_elem? (before ++ (part ++ after))) (map (λ c. c + n) cs) ≡ map (get_elem? part) cs
  raised before part after n [] e h = refl
  raised before part after n (c ∷ cs) e h =
      let here : get_elem? (before ++ (part ++ after)) (c + n) ≡ get_elem? part c =
        get_elem?-append_right before (part ++ after) (c + n) c (omega arith)
        ∙ get_elem?-append_left part after c (h 0 c refl) in
      let later = raised before part after n cs e (λ k d q. h (suc k) d q) in rw (here, later) refl

  ends_lem :
      (before : List F) (n : ℕ) (es : List (Generic F))
      → n ≡ length before
      → AllSound es
      → map (get_elem? (before ++ joined (λ e. e.boundaries) es)) (joined_chanind n es)
        ≡ all_ends es
  ends_lem before n [] e s = refl
  ends_lem before n (g ∷ es) e (s, ss) =
      let after = joined (λ e. e.boundaries) es in
      let look = get_elem? (before ++ (g.boundaries ++ after)) in
      let first =
        raised before g.boundaries after n g.chanind e
          (λ k c q. omega (arith, s.in_bounds k c q, s.all_boundaries)) in
      let rest =
        ends_lem (before ++ g.boundaries) (n + g.nboundaries) es
          (omega (arith, length-append before g.boundaries, s.all_boundaries)) ss in
      let same : map look (joined_chanind (n + g.nboundaries) es) ≡ all_ends es =
        rw⁻¹ (append_assoc before g.boundaries after) rest in
      map-append look (map (λ c. c + n) g.chanind) (joined_chanind (n + g.nboundaries) es)
      ∙ rw (first, same) refl

  -- Of sound spectrometers, tell makes a sound spectrometer, whose channels are those of the elements,
  -- one after the other: each end, looked up in the new array of boundaries through the new channel
  -- indices, is the frequency that the element's own arrays give.
  pub gather_lem :
      (es : List (Generic F))
      → AllSound es
      → (g : Generic F) × (gather es ≡ ok g) × IsSound g × (ends g ≡ all_ends es)
  unfolding gather
  gather_lem es s = (
    record {
      nsamples = (count es).0;
      nboundaries = (count es).1;
      boundaries = joined (λ e. e.boundaries) es;
      chanind = joined_chanind 0 es;
      midpoints = joined (λ e. e.midpoints) es;
      widths = joined (λ e. e.widths) es;
    },
    rw
        (
          copy-joined (λ e. e.nboundaries) (λ e. e.boundaries) es (λ e h. h.all_boundaries) s,
          copy-joined (λ e. e.nsamples) (λ e. e.widths) es (λ e h. h.all_widths) s,
          copy-joined (λ e. e.nsamples) (λ e. e.midpoints) es (λ e h. h.all_midpoints) s,
          copy_chanind-joined 0 es s,
        )
        refl,
    record {
      all_boundaries = length-joined_boundaries es s;
      all_widths = length-joined (λ e. e.widths) es (λ e h. h.all_widths) s;
      all_midpoints = length-joined (λ e. e.midpoints) es (λ e h. h.all_midpoints) s;
      all_channels = length-joined_chanind 0 es s;
      in_bounds = λ k c q. omega (arith, joined_chanind-lt 0 es s k c q);
    },
    ends_lem [] 0 es refl s,
  )
