-- ===== src/Spectrometer/Complex/Tests.antt =====
-- Runs of a complex spectrometer of two elements.
use gyoto.Prelude.{
  ℕ, zero, suc, true, ◌≡◌, ◌≢◌, ◌<◌, refl, ◌==◌, if◌then◌else◌, Option, some, List, [], ◌∷◌, ◌++◌,
  get_elem?, Outcome, ok, undefined, arith,
}
use gyoto.Spectrometer.{Generic, IsSound, ends}
use gyoto.Spectrometer.Complex.{
  gather, complex, other, Heap, at, tell, append, all_but, remove, change,
}
use gyoto.Spectrometer.Complex.Gather.{all_ends, gather_lem}
use gyoto.Spectrometer.Complex.Coherent.{
  IsCoherent, append-IsCoherent, change-IsCoherent, remove-IsCoherent,
}

abbrev narrow : Generic ℕ
narrow = record {
  nsamples = 1;
  nboundaries = 2;
  boundaries = 10 ∷ 20 ∷ [];
  chanind = 0 ∷ 1 ∷ [];
  midpoints = 15 ∷ [];
  widths = 10 ∷ [];
}

abbrev wide : Generic ℕ
wide = record {
  nsamples = 2;
  nboundaries = 3;
  boundaries = 50 ∷ 70 ∷ 90 ∷ [];
  chanind = 0 ∷ 1 ∷ 1 ∷ 2 ∷ [];
  midpoints = 60 ∷ 80 ∷ [];
  widths = 20 ∷ 20 ∷ [];
}

narrow_channels : (k c : ℕ) → get_elem? narrow.chanind k ≡ some c → c < narrow.nboundaries
narrow_channels zero c e = ground (arith, e)
narrow_channels (suc zero) c e = ground (arith, e)
narrow_channels (suc (suc k)) c e = cc

narrow-IsSound : IsSound narrow
narrow-IsSound = record {
  all_boundaries = refl;
  all_widths = refl;
  all_midpoints = refl;
  all_channels = refl;
  in_bounds = narrow_channels;
}

wide_channels : (k c : ℕ) → get_elem? wide.chanind k ≡ some c → c < wide.nboundaries
wide_channels zero c e = ground (arith, e)
wide_channels (suc zero) c e = ground (arith, e)
wide_channels (suc (suc zero)) c e = ground (arith, e)
wide_channels (suc (suc (suc zero))) c e = ground (arith, e)
wide_channels (suc (suc (suc (suc k)))) c e = cc

wide-IsSound : IsSound wide
wide-IsSound = record {
  all_boundaries = refl;
  all_widths = refl;
  all_midpoints = refl;
  all_channels = refl;
  in_bounds = wide_channels;
}

abbrev ends_of : Outcome (Generic ℕ) → List (Option ℕ)
ends_of (ok g) = ends g
ends_of o = []

gathered_ends :
    ends_of (gather (narrow ∷ wide ∷ []))
    ≡ some 10 ∷ some 20 ∷ some 50 ∷ some 70 ∷ some 70 ∷ some 90 ∷ []
unfolding gather
gathered_ends = refl

-- A uniform spectrometer after nSamples(0): one boundary is announced, and the pointer is null.
abbrev no_samples : Generic ℕ
no_samples = record {
  nsamples = 0;
  nboundaries = 1;
  boundaries = [];
  chanind = [];
  midpoints = [];
  widths = [];
}

copied_from_null : gather (narrow ∷ no_samples ∷ []) ≡ undefined
unfolding gather
copied_from_null = refl

gather_lem_example :
    (g : Generic ℕ) × (gather (narrow ∷ wide ∷ []) ≡ ok g)
    × IsSound g
    × (ends g ≡ all_ends (narrow ∷ wide ∷ []))
gather_lem_example = gather_lem (narrow ∷ wide ∷ []) (narrow-IsSound, (wide-IsSound, tt))

-- One element, at address 0; another spectrometer stands at address 1, where an object outside
-- listens.
abbrev one_element : Heap ℕ
one_element = record {
  spectrometers = λ k. if k == 0 then narrow else wide;
  listeners = λ k. if k == 0 then complex ∷ [] else other 7 ∷ [];
  elements = 0 ∷ [];
  generic = narrow;
  told = 0;
}

one_element_lem : (i e : ℕ) → get_elem? one_element.elements i ≡ some e → (i ≡ 0) × (e ≡ 0)
one_element_lem zero e q = (refl, ground (arith, q))
one_element_lem (suc i) e q = cc

one_element-IsCoherent : IsCoherent one_element
unfolding gather
one_element-IsCoherent = record {
  fresh = refl;
  hooked = λ i e q. let (p, r) = one_element_lem i e q in (0, rw r refl);
  distinct = λ i j e p q. omega (arith, one_element_lem i e p, one_element_lem j e q);
}

change-IsCoherent_example :
    (h' : Heap ℕ) × (change 0 (wide, true) one_element ≡ ok h')
    × (h'.elements ≡ one_element.elements)
    × (h'.spectrometers ≡ at 0 wide one_element.spectrometers)
    × IsCoherent h'
change-IsCoherent_example =
    change-IsCoherent 0 wide one_element (wide-IsSound, tt) one_element-IsCoherent

append-IsCoherent_example :
    (h' : Heap ℕ) × (append 1 one_element ≡ ok h')
    × (h'.elements ≡ one_element.elements ++ (1 ∷ []))
    × IsCoherent h'
append-IsCoherent_example =
    append-IsCoherent 1 one_element (omega arith) (λ i q. omega (arith, one_element_lem i 1 q))
      (narrow-IsSound, (wide-IsSound, tt)) one_element-IsCoherent

abbrev two_elements : Heap ℕ
two_elements = record {
  spectrometers = λ k. if k == 0 then narrow else wide;
  listeners = λ k. complex ∷ [];
  elements = 0 ∷ 1 ∷ [];
  generic = record {
    nsamples = 3;
    nboundaries = 5;
    boundaries = 10 ∷ 20 ∷ 50 ∷ 70 ∷ 90 ∷ [];
    chanind = 0 ∷ 1 ∷ 2 ∷ 3 ∷ 3 ∷ 4 ∷ [];
    midpoints = 15 ∷ 60 ∷ 80 ∷ [];
    widths = 10 ∷ 20 ∷ 20 ∷ [];
  };
  told = 2;
}

two_elements_lem : (i e : ℕ) → get_elem? two_elements.elements i ≡ some e → i ≡ e
two_elements_lem zero e q = ground (arith, q)
two_elements_lem (suc zero) e q = ground (arith, q)
two_elements_lem (suc (suc i)) e q = cc

two_elements-IsCoherent : IsCoherent two_elements
unfolding gather
two_elements-IsCoherent = record {
  fresh = refl;
  hooked = λ i e q. (0, refl);
  distinct = λ i j e p q. omega (arith, two_elements_lem i e p, two_elements_lem j e q);
}

remove-IsCoherent_example :
    (h' : Heap ℕ) × (remove 0 two_elements ≡ ok h')
    × (h'.elements ≡ all_but 0 two_elements.elements)
    × ((k : ℕ) → get_elem? (h'.listeners 0) k ≢ some complex)
    × IsCoherent h'
remove-IsCoherent_example =
    remove-IsCoherent 0 0 two_elements refl (wide-IsSound, tt) two_elements-IsCoherent

-- The same element twice, and one of the two removed.
abbrev twice : Heap ℕ
twice = record one_element {
  elements = 0 ∷ 0 ∷ [];
  listeners = λ k. complex ∷ complex ∷ [];
  generic = record {
    nsamples = 2;
    nboundaries = 4;
    boundaries = 10 ∷ 20 ∷ 10 ∷ 20 ∷ [];
    chanind = 0 ∷ 1 ∷ 2 ∷ 3 ∷ [];
    midpoints = 15 ∷ 15 ∷ [];
    widths = 10 ∷ 10 ∷ [];
  };
}

abbrev once_left : Heap ℕ
once_left = record one_element {
  listeners = λ k. if k == 0 then [] else complex ∷ complex ∷ [];
  told = 1;
}

twice_less_one : remove 0 twice ≡ ok once_left
unfolding remove tell gather
twice_less_one = refl
