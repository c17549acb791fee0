-- ===== src/Scenery/Quantities/RoundTrip.antt =====
-- A text of requestedQuantitiesString is read back by its setter.
use gyoto.Prelude.{
  ℕ, ◌+◌, ◌≡◌, inl, inr, refl, sym, ap, ◌∙◌, Bool, Bool-cases, true, false, ◌&&◌, ◌||◌, not, ◌==◌,
  if◌then◌else◌, some, List, [], ◌∷◌, ◌++◌, map, length, length-map, Text, has_char, Outcome, ok,
  arith,
}
use mathlib.Core.List.{append_assoc, append-nil}
use gyoto.Scenery.Quantities.{
  Quantity, intensity, emissiontime, min_distance, first_dmin, redshift, nbcrosseqplane,
  impactcoords, spectrum, spectrum_stokes_q, spectrum_stokes_u, spectrum_stokes_v, binspectrum,
  user1, user2, user3, user4, user5, Word, Requested, bit, name, blanks, words, flush, selected,
  print, all_quantities, set_bit, request, request_all, request_string, quantities_string,
  scalar_quantities_count, spectral_quantities_count, count, with_transport, si_unit, si_band_unit,
  has_stokes,
}

-- A word holds no blank.
abbrev pub IsSolid : Text → Type 0
IsSolid [] = Unit {0}
IsSolid (c ∷ cs) = (has_char c blanks ≡ false) × IsSolid cs

is_solid : Text → Bool
is_solid [] = true
is_solid (c ∷ cs) = not (has_char c blanks) && is_solid cs

is_solid-IsSolid : (t : Text) → is_solid t ≡ true → IsSolid t
unfolding is_solid
is_solid-IsSolid [] e = tt
is_solid-IsSolid (c ∷ cs) e = elim (Bool-cases (has_char c blanks)) [
  | inl blank ↦ let e' : false ≡ true = rw blank at e in cc
  | inr solid ↦ let e' : is_solid cs ≡ true = rw solid at e in (solid, is_solid-IsSolid cs e')
]

words-append : (t rest word : Text) → IsSolid t → words (t ++ rest) word ≡ words rest (word ++ t)
unfolding words
words-append [] rest word h = rw append-nil
words-append (c ∷ t) rest word (solid, h) =
    rw (words, solid)
      (words-append t rest (word ++ c ∷ []) h ∙ ap (words rest) (append_assoc word (c ∷ []) t))

name-IsSolid : (q : Quantity) → IsSolid (name q)
unfolding is_solid
name-IsSolid intensity = is_solid-IsSolid (name intensity) refl
name-IsSolid emissiontime = is_solid-IsSolid (name emissiontime) refl
name-IsSolid min_distance = is_solid-IsSolid (name min_distance) refl
name-IsSolid first_dmin = is_solid-IsSolid (name first_dmin) refl
name-IsSolid redshift = is_solid-IsSolid (name redshift) refl
name-IsSolid nbcrosseqplane = is_solid-IsSolid (name nbcrosseqplane) refl
name-IsSolid impactcoords = is_solid-IsSolid (name impactcoords) refl
name-IsSolid spectrum = is_solid-IsSolid (name spectrum) refl
name-IsSolid spectrum_stokes_q = is_solid-IsSolid (name spectrum_stokes_q) refl
name-IsSolid spectrum_stokes_u = is_solid-IsSolid (name spectrum_stokes_u) refl
name-IsSolid spectrum_stokes_v = is_solid-IsSolid (name spectrum_stokes_v) refl
name-IsSolid binspectrum = is_solid-IsSolid (name binspectrum) refl
name-IsSolid user1 = is_solid-IsSolid (name user1) refl
name-IsSolid user2 = is_solid-IsSolid (name user2) refl
name-IsSolid user3 = is_solid-IsSolid (name user3) refl
name-IsSolid user4 = is_solid-IsSolid (name user4) refl
name-IsSolid user5 = is_solid-IsSolid (name user5) refl

flush_name : (q : Quantity) (rest : List Text) → flush (name q) rest ≡ name q ∷ rest
flush_name intensity rest = refl
flush_name emissiontime rest = refl
flush_name min_distance rest = refl
flush_name first_dmin rest = refl
flush_name redshift rest = refl
flush_name nbcrosseqplane rest = refl
flush_name impactcoords rest = refl
flush_name spectrum rest = refl
flush_name spectrum_stokes_q rest = refl
flush_name spectrum_stokes_u rest = refl
flush_name spectrum_stokes_v rest = refl
flush_name binspectrum rest = refl
flush_name user1 rest = refl
flush_name user2 rest = refl
flush_name user3 rest = refl
flush_name user4 rest = refl
flush_name user5 rest = refl

-- The words of a printed list are the names.
words-print : (qs : List Quantity) → words (print qs) [] ≡ map name qs
unfolding words print
words-print [] = refl
words-print (q ∷ qs) =
    words-append (name q) (32 ∷ print qs) [] (name-IsSolid q)
    ∙ flush_name q (words (print qs) [])
    ∙ ap (λ ns. name q ∷ ns) (words-print qs)

-- Whether a bit is that of one of the quantities.
abbrev any_of : ℕ → List Quantity → Bool
any_of k [] = false
any_of k (q ∷ qs) = (k == bit q) || any_of k qs

abbrev any_set : ℕ → List Quantity → Word → Bool
any_set k [] w = false
any_set k (q ∷ qs) w = ((k == bit q) && w (bit q)) || any_set k qs w

or_swap : (a b c : Bool) → a || (b || c) ≡ (b || a) || c
or_swap true true c = refl
or_swap true false c = refl
or_swap false true c = refl
or_swap false false c = refl

or_false : (a : Bool) → a || false ≡ a
or_false true = refl
or_false false = refl

and_false : (a : Bool) → a && false ≡ false
and_false true = refl
and_false false = refl

and_true : (a b : Bool) → b ≡ true → a && b ≡ a
and_true true b e = e
and_true false b e = refl

any_of-selected :
    (k : ℕ) (qs : List Quantity) (w : Word) → any_of k (selected qs w) ≡ any_set k qs w
unfolding selected
any_of-selected k [] w = refl
any_of-selected k (q ∷ qs) w = elim (Bool-cases (w (bit q))) [
  | inl asked ↦ rw asked (simp (any_of-selected k qs w, and_true (k == bit q) true refl))
  | inr unasked ↦ rw unasked (
      any_of-selected k qs w
      ∙ ap (λ (b : Bool). b || any_set k qs w) (sym (and_false (k == bit q))))
]

any_set-all : (q : Quantity) (w : Word) → any_set (bit q) all_quantities w ≡ w (bit q)
any_set-all intensity w = or_false (w (bit intensity))
any_set-all emissiontime w = or_false (w (bit emissiontime))
any_set-all min_distance w = or_false (w (bit min_distance))
any_set-all first_dmin w = or_false (w (bit first_dmin))
any_set-all redshift w = or_false (w (bit redshift))
any_set-all nbcrosseqplane w = or_false (w (bit nbcrosseqplane))
any_set-all impactcoords w = or_false (w (bit impactcoords))
any_set-all spectrum w = or_false (w (bit spectrum))
any_set-all spectrum_stokes_q w = or_false (w (bit spectrum_stokes_q))
any_set-all spectrum_stokes_u w = or_false (w (bit spectrum_stokes_u))
any_set-all spectrum_stokes_v w = or_false (w (bit spectrum_stokes_v))
any_set-all binspectrum w = or_false (w (bit binspectrum))
any_set-all user1 w = or_false (w (bit user1))
any_set-all user2 w = or_false (w (bit user2))
any_set-all user3 w = or_false (w (bit user3))
any_set-all user4 w = or_false (w (bit user4))
any_set-all user5 w = or_false (w (bit user5))

has_stokes-same :
    (v w : Word)
    → v (bit spectrum_stokes_q) ≡ w (bit spectrum_stokes_q)
    → v (bit spectrum_stokes_u) ≡ w (bit spectrum_stokes_u)
    → v (bit spectrum_stokes_v) ≡ w (bit spectrum_stokes_v)
    → has_stokes v ≡ has_stokes w
has_stokes-same v w q u x = rw (q, u, x) refl

length-selected : (qs : List Quantity) (w : Word) → length (selected qs w) ≡ count qs w
unfolding selected
length-selected [] w = refl
length-selected (q ∷ qs) w = elim (Bool-cases (w (bit q))) [
  | inl asked ↦ rw asked (omega (arith, length-selected qs w))
  | inr unasked ↦ rw unasked (omega (arith, length-selected qs w))
]

-- The names that are written are as many as the scalar quantities, the spectral ones and the impact
-- coordinates that are counted.
pub quantities-count :
    (w : Word)
    → length (words (quantities_string w) [])
      ≡ scalar_quantities_count w + spectral_quantities_count w + count (impactcoords ∷ []) w
unfolding quantities_string scalar_quantities_count spectral_quantities_count
quantities-count w =
    ap (length {A = Text}) (words-print (selected all_quantities w))
    ∙ length-map (selected all_quantities w) name
    ∙ length-selected all_quantities w
    ∙ omega arith

module _ {C : Type 0} (new_converter : Text → Text → Outcome C) where
  -- The converter of a unit to itself is there.
  abbrev pub Converts : Type 0
  Converts =
      ((c : C) × (new_converter si_unit si_unit ≡ ok c))
      × ((c : C) × (new_converter si_band_unit si_band_unit ≡ ok c))

  request-name :
      (q : Quantity) (s : Requested C)
      → Converts
      → (s' : Requested C) × (request new_converter (name q) s ≡ ok s')
        × (s'.quantities ≡ set_bit (bit q) s.quantities)
        × (s'.parallel_transport ≡ s.parallel_transport)
  unfolding request
  request-name intensity s ((c, e), band) = (
    record s { quantities = set_bit 0 s.quantities; intensity_converter = some c },
    rw e refl,
    refl,
    refl,
  )
  request-name emissiontime s h = (_, refl, refl, refl)
  request-name min_distance s h = (_, refl, refl, refl)
  request-name first_dmin s h = (_, refl, refl, refl)
  request-name redshift s h = (_, refl, refl, refl)
  request-name nbcrosseqplane s h = (_, refl, refl, refl)
  request-name impactcoords s h = (_, refl, refl, refl)
  request-name spectrum s ((c, e), band) = (
    record s { quantities = set_bit 6 s.quantities; spectrum_converter = some c },
    rw e refl,
    refl,
    refl,
  )
  request-name spectrum_stokes_q s h = (_, refl, refl, refl)
  request-name spectrum_stokes_u s h = (_, refl, refl, refl)
  request-name spectrum_stokes_v s h = (_, refl, refl, refl)
  request-name binspectrum s (si, (c, e)) = (
    record s { quantities = set_bit 10 s.quantities; binspectrum_converter = some c },
    rw e refl,
    refl,
    refl,
  )
  request-name user1 s h = (_, refl, refl, refl)
  request-name user2 s h = (_, refl, refl, refl)
  request-name user3 s h = (_, refl, refl, refl)
  request-name user4 s h = (_, refl, refl, refl)
  request-name user5 s h = (_, refl, refl, refl)

  -- Bits are added in the order of the names.
  abbrev add_in_order : List Quantity → Word → Word
  add_in_order [] w = w
  add_in_order (q ∷ qs) w = add_in_order qs (set_bit (bit q) w)

  request_all-names :
      (qs : List Quantity) (s : Requested C)
      → Converts
      → (s' : Requested C) × (request_all new_converter (map name qs) s ≡ ok s')
        × (s'.quantities ≡ add_in_order qs s.quantities)
        × (s'.parallel_transport ≡ s.parallel_transport)
  unfolding request_all
  request_all-names [] s h = (s, refl, refl, refl)
  request_all-names (q ∷ qs) s h =
      let (t, e, added, kept) = request-name q s h in
      let (s', e', added', kept') = request_all-names qs t h in
      (s', rw e e', added' ∙ ap (add_in_order qs) added, kept' ∙ kept)

  add_in_order_lem :
      (qs : List Quantity) (w : Word) (k : ℕ) → add_in_order qs w k ≡ any_of k qs || w k
  add_in_order_lem [] w k = refl
  add_in_order_lem (q ∷ qs) w k =
      add_in_order_lem qs (set_bit (bit q) w) k ∙ or_swap (any_of k qs) (k == bit q) (w k)

  -- The text that requestedQuantitiesString makes of a set of quantities is accepted by its setter, which
  -- then requests just these quantities, where Units::Converter takes its default units. Parallel
  -- transport is switched on where a Stokes parameter is among them, and otherwise stays as it was.
  pub print-request_string :
      (w : Word) (s : Requested C)
      → Converts
      → (s' : Requested C) × (request_string new_converter (quantities_string w) s ≡ ok s')
        × ((q : Quantity) → s'.quantities (bit q) ≡ w (bit q))
        × (s'.parallel_transport ≡ (if has_stokes w then true else s.parallel_transport))
  unfolding request_string quantities_string
  print-request_string w s h =
      let qs = selected all_quantities w in
      let (t, e, added, kept) = request_all-names qs (record s { quantities = λ k. false }) h in
      let same_bits : (q : Quantity) → t.quantities (bit q) ≡ w (bit q) = λ q.
        ap (λ f. f (bit q)) added
        ∙ add_in_order_lem qs (λ k. false) (bit q)
        ∙ or_false (any_of (bit q) qs)
        ∙ any_of-selected (bit q) all_quantities w
        ∙ any_set-all q w in
      let stokes =
        has_stokes-same t.quantities w (same_bits spectrum_stokes_q) (same_bits spectrum_stokes_u)
          (same_bits spectrum_stokes_v) in
      let transport =
        ap (λ (b : Bool). if b then true else t.parallel_transport) stokes
        ∙ ap (λ (b : Bool). if has_stokes w then true else b) kept in
      (with_transport t, rw (words-print qs, e) refl, same_bits, transport)
