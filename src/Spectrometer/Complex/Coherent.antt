-- ===== src/Spectrometer/Complex/Coherent.antt =====
-- The complex spectrometer keeps up with its elements.
use gyoto.Prelude.{
  ℕ, zero, suc, ◌+◌, ◌^◌, ◌≡◌, ◌≢◌, ◌<◌, refl, sym, ap, ◌∙◌, ◌⊎◌, inl, inr, ℕ_discrete, true, false,
  leb, ltb, some, List, [], ◌∷◌, ◌++◌, map, length, get_elem?, get_elem?-lt, get_elem?-none,
  get_elem?-some, ok, throws, undefined, Error, arith,
}
use gyoto.Hooks.{hook, unhook, tell_listeners}
use gyoto.Spectrometer.{Generic}
use gyoto.Spectrometer.Complex.{
  gather, Listener, complex, other, same, Heap, at, tell, notify, append, all_but, remove, element,
  change,
}
use gyoto.Spectrometer.Complex.Elements.{
  Occurs, append-occurs, old_index, old_index-ne, old_index-injective, all_but_lem, unhook-complex,
  hook-Occurs,
}
use gyoto.Spectrometer.Complex.Gather.{AllSound, gather_lem}

abbrev Distinct : List ℕ → Type 0
Distinct es = (i j e : ℕ) → get_elem? es i ≡ some e → get_elem? es j ≡ some e → i ≡ j

appended-Distinct :
    (e : ℕ) (es : List ℕ)
    → ((i : ℕ) → get_elem? es i ≢ some e)
    → Distinct es
    → Distinct (es ++ (e ∷ []))
appended-Distinct e es absent d i j x p q = elim (append-occurs es e x i p) [
  | inl a ↦ elim (append-occurs es e x j q) [
    | inl b ↦ d i j x a b
    | inr (b, s) ↦ absurd (absent i (a ∙ ap some s))
  ]
  | inr (a, s) ↦ elim (append-occurs es e x j q) [
    | inl b ↦ absurd (absent j (b ∙ ap some s))
    | inr (b, t) ↦ a ∙ sym b
  ]
]

removed-Distinct : (i : ℕ) (es : List ℕ) → Distinct es → Distinct (all_but i es)
removed-Distinct i es d j k x p q = old_index-injective i j k (
    d (old_index i j) (old_index i k) x (sym (all_but_lem i j es) ∙ p)
      (sym (all_but_lem i k es) ∙ q))

later_hears :
    {P : Type 0} (n : ℕ) (ls : List Listener)
    → P ⊎ Occurs complex (other n ∷ ls)
    → P ⊎ Occurs complex ls
later_hears n ls (inl p) = inl p
later_hears n ls (inr (zero, e)) = cc
later_hears n ls (inr (suc k, e)) = inr (k, e)

module _ {F : Type 0} where
  -- The elements' data, in their order.
  abbrev pub data_of : Heap F → List (Generic F)
  data_of h = map h.spectrometers h.elements

  abbrev IsFresh : Heap F → Type 0
  IsFresh h = gather (data_of h) ≡ ok h.generic

  -- The arrays are those of the elements as they are, each element tells the complex spectrometer, and
  -- no element is there twice.
  pub record IsCoherent (h : Heap F) : Type 0 where
    pub fresh : gather (data_of h) ≡ ok h.generic
    pub hooked : (i e : ℕ) → get_elem? h.elements i ≡ some e → Occurs complex (h.listeners e)
    pub distinct :
        (i j e : ℕ) → get_elem? h.elements i ≡ some e → get_elem? h.elements j ≡ some e → i ≡ j

  appended-hooked :
      (e : ℕ) (h : Heap F)
      → IsCoherent h
      → (i x : ℕ) → get_elem? (h.elements ++ (e ∷ [])) i ≡ some x
      → Occurs complex (at e (hook complex (h.listeners e)) h.listeners x)
  appended-hooked e h c i x q = elim (append-occurs h.elements e x i q) [
    | inl old ↦ hook-Occurs e x h.listeners (c.hooked i x old)
    | inr (p, r) ↦ (0, ground arith)
  ]

  removed-hooked :
      (i e : ℕ) (h : Heap F)
      → get_elem? h.elements i ≡ some e
      → IsCoherent h
      → (j x : ℕ) → get_elem? (all_but i h.elements) j ≡ some x
      → Occurs complex (at e (unhook same complex (h.listeners e)) h.listeners x)
  removed-hooked i e h here c j x q =
      let was = sym (all_but_lem i j h.elements) ∙ q in
      let ne : x ≢ e =
        λ s. old_index-ne i j (c.distinct (old_index i j) i e (was ∙ ap some s) here) in
      let (k, l) = c.hooked (old_index i j) x was in (k, ground arith)

  -- What telling does not touch.
  abbrev Keeps : Heap F → Heap F → Type 0
  Keeps h h' =
      (h'.spectrometers ≡ h.spectrometers)
      × (h'.elements ≡ h.elements)
      × (h'.listeners ≡ h.listeners)

  tell_lem :
      (h : Heap F)
      → AllSound (data_of h)
      → (h' : Heap F) × (tell h ≡ ok h') × Keeps h h' × IsFresh h'
  unfolding tell
  tell_lem h s =
      let (g, q, _, _) = gather_lem (data_of h) s in
      (record h { generic = g; told = h.told + 1 }, rw q refl, (refl, refl, refl), q)

  -- With sound elements, telling the listeners returns; the arrays are then those of the elements if
  -- they were, or if the complex spectrometer is one of the listeners.
  tell_listeners_lem :
      (ls : List Listener) (h : Heap F)
      → AllSound (data_of h)
      → (h' : Heap F) × (tell_listeners notify ls (ok h) ≡ ok h')
        × Keeps h h'
        × (IsFresh h ⊎ Occurs complex ls → IsFresh h')
  unfolding notify
  tell_listeners_lem [] h s =
      (h, refl, (refl, refl, refl), λ was. elim was [ inl f ↦ f | inr (k, e) ↦ cc ])
  tell_listeners_lem (complex ∷ ls) h s =
      let (h₁, q, (a, b, c), f) = tell_lem h s in
      let (h₂, q₂, (a₂, b₂, c₂), f₂) = tell_listeners_lem ls h₁ (rw (a, b) s) in
      (h₂, rw q q₂, (a₂ ∙ a, b₂ ∙ b, c₂ ∙ c), λ was. f₂ (inl f))
  tell_listeners_lem (other n ∷ ls) h s =
      let (h₁, q, kept, f) = tell_listeners_lem ls h s in
      (h₁, q, kept, λ was. f (later_hears n ls was))

  map-at :
      (es : List ℕ) (e : ℕ) (g : Generic F) (f : ℕ → Generic F)
      → Occurs e es ⊎ (map (at e g f) es ≡ map f es)
  map-at [] e g f = inr refl
  map-at (x ∷ es) e g f = elim (ℕ_discrete x e) [
    | yes same_one ↦ inl (0, ap some same_one)
    | no ne ↦ elim (map-at es e g f) [
      | inl (i, q) ↦ inl (suc i, q)
      | inr q ↦ let here : at e g f x ≡ f x = ground arith in inr (rw (here, q) refl)
    ]
  ]

  -- A setter of any spectrometer, an element or not, that comes to tellListeners and leaves the
  -- elements' data sound returns, changes neither the elements nor any other data of theirs, and leaves
  -- a coherent complex spectrometer so: its arrays are then those of the elements with the change.
  pub change-IsCoherent :
      (e : ℕ) (g : Generic F) (h : Heap F)
      → AllSound (map (at e g h.spectrometers) h.elements)
      → IsCoherent h
      → (h' : Heap F) × (change e (g, true) h ≡ ok h')
        × (h'.elements ≡ h.elements)
        × (h'.spectrometers ≡ at e g h.spectrometers)
        × IsCoherent h'
  unfolding change
  change-IsCoherent e g h s c =
      let h₁ = record h { spectrometers = at e g h.spectrometers } in
      let (h', q, (same_data, same_elements, same_listeners), f) =
        tell_listeners_lem (h.listeners e) h₁ s in
      (
        h',
        q,
        same_elements,
        same_data,
        record {
          fresh = f (elim (map-at h.elements e g h.spectrometers) [
            | inl (i, r) ↦ inr (c.hooked i e r)
            | inr r ↦ inl (ap gather r ∙ c.fresh)
          ]);
          hooked = rw (same_elements, same_listeners) c.hooked;
          distinct = rw same_elements c.distinct;
        },
      )

  -- append, to a coherent complex spectrometer of fewer than 2 ^ 64 - 1 elements, of a spectrometer that
  -- is no element yet, with the data of the elements and of the new one sound, returns with it as the
  -- last element, and the result is coherent.
  pub append-IsCoherent :
      (e : ℕ) (h : Heap F)
      → length h.elements + 1 < 2 ^ 64
      → ((i : ℕ) → get_elem? h.elements i ≢ some e)
      → AllSound (map h.spectrometers (h.elements ++ (e ∷ [])))
      → IsCoherent h
      → (h' : Heap F) × (append e h ≡ ok h')
        × (h'.elements ≡ h.elements ++ (e ∷ []))
        × IsCoherent h'
  unfolding append
  append-IsCoherent e h room absent s c =
      let h₁ = record h {
        elements = h.elements ++ (e ∷ []);
        listeners = at e (hook complex (h.listeners e)) h.listeners;
      } in
      let fits : ltb (length h.elements + 1) (2 ^ 64) ≡ true = ground arith in
      let (h', made, (same_data, same_elements, same_listeners), fresh) = tell_lem h₁ s in
      (
        h',
        rw fits made,
        same_elements,
        record {
          fresh = fresh;
          hooked = rw (same_elements, same_listeners) (appended-hooked e h c);
          distinct = rw same_elements (appended-Distinct e h.elements absent c.distinct);
        },
      )

  -- remove of the element at an index in range, with the data of the others sound, returns without that
  -- element and with the others in their order, is no longer a listener of the element, and leaves a
  -- coherent complex spectrometer so.
  pub remove-IsCoherent :
      (i e : ℕ) (h : Heap F)
      → get_elem? h.elements i ≡ some e
      → AllSound (map h.spectrometers (all_but i h.elements))
      → IsCoherent h
      → (h' : Heap F) × (remove i h ≡ ok h')
        × (h'.elements ≡ all_but i h.elements)
        × ((k : ℕ) → get_elem? (h'.listeners e) k ≢ some complex)
        × IsCoherent h'
  unfolding remove
  remove-IsCoherent i e h here s c =
      let h₁ = record h {
        elements = all_but i h.elements;
        listeners = at e (unhook same complex (h.listeners e)) h.listeners;
      } in
      let fits : ltb i (length h.elements) ≡ true =
        ground (arith, get_elem?-lt h.elements i here) in
      let (h', made, (same_data, same_elements, same_listeners), fresh) = tell_lem h₁ s in
      (
        h',
        rw (fits, here) made,
        same_elements,
        let own : h₁.listeners e ≡ unhook same complex (h.listeners e) = ground arith in
            rw (same_listeners, own) (unhook-complex (h.listeners e)),
        record {
          fresh = fresh;
          hooked = rw (same_elements, same_listeners) (removed-hooked i e h here c);
          distinct = rw same_elements (removed-Distinct i h.elements c.distinct);
        },
      )

  -- operator[] gives the element at an index in range and throws above the number of elements, but at
  -- that number it reads past the end of the array.
  pub element_lem :
      (i : ℕ) (h : Heap F)
      → (i < length h.elements → (e : ℕ) × (get_elem? h.elements i ≡ some e) × (element i h ≡ ok e))
        × (i ≡ length h.elements → element i h ≡ undefined)
        × (length h.elements < i → element i h ≡ throws Error.no_such_element)
  unfolding element
  element_lem i h = (
    λ lt.
        let (e, q) = get_elem?-some h.elements i lt in
        let fits : leb i (length h.elements) ≡ true = ground arith in (e, q, rw (fits, q) refl),
    λ same_one.
        let fits : leb i (length h.elements) ≡ true = ground arith in
        rw (fits, get_elem?-none h.elements i (omega arith)) refl,
    λ lt. let fits : leb i (length h.elements) ≡ false = ground arith in rw fits refl,
  )
