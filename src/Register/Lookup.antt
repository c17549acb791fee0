-- ===== src/Register/Lookup.antt =====
-- Which entry a look-up finds.
use gyoto.Prelude.{
  ℕ, zero, suc, ◌≡◌, ◌≢◌, ◌<◌, ◌≤◌, refl, Bool, true, false, Bool-cases, ◌⊎◌, inl, inr,
  if◌then◌else◌, none, some, List, [], ◌∷◌, length, get_elem?, get_elem?-some, set, ℕ_discrete, ok,
  throws, undefined, Error, arith,
}
use gyoto.Register.{Entry, Linker, fits, entry_get, search_down}

module _ {N P : Type 0} (linker : Linker N P) where
  open linker use {same, empty}

  -- The entry at `i` is the first that fits.
  pub record IsFirst (name plugin : N) (entries : List (Entry N P)) (i : ℕ) (e : Entry N P)
      : Type 0 where
    pub found : get_elem? entries i ≡ some e
    pub fitting : fits linker name plugin e ≡ true
    pub first :
        (j : ℕ) (d : Entry N P)
        → j < i
        → get_elem? entries j ≡ some d
        → fits linker name plugin d ≡ false

  abbrev pub NoneFits : N → N → List (Entry N P) → Type 0
  NoneFits name plugin entries =
      (j : ℕ) (d : Entry N P) → get_elem? entries j ≡ some d → fits linker name plugin d ≡ false

  IsFirst-cases :
      (name plugin : N) (entries : List (Entry N P))
      → ((i : ℕ) × (e : Entry N P) × IsFirst name plugin entries i e) ⊎ NoneFits name plugin entries
  IsFirst-cases name plugin [] = inr (λ j d q. cc)
  IsFirst-cases name plugin (e ∷ es) = elim (Bool-cases (fits linker name plugin e)) [
    | inl here ↦
        inl
          (0, e, record { found = refl; fitting = here; first = λ j d lt q. absurd (omega arith) })
    | inr not_here ↦ elim (IsFirst-cases name plugin es) [
      | inl (i, d, f) ↦ inl (
        suc i,
        d,
        record { found = f.found; fitting = f.fitting; first = earlier not_here f.first },
      )
      | inr nowhere ↦ inr (nor not_here nowhere)
    ]
  ]
    where
      earlier :
          {i : ℕ}
          → fits linker name plugin e ≡ false
          → ((j : ℕ) (d : Entry N P)
              → j < i
              → get_elem? es j ≡ some d
              → fits linker name plugin d ≡ false)
          → (j : ℕ) (d : Entry N P) → j < suc i
          → get_elem? (e ∷ es) j ≡ some d
          → fits linker name plugin d ≡ false
      earlier h later zero d lt q = let same_entry : e ≡ d = cc in rw⁻¹ same_entry h
      earlier h later (suc j) d lt q = later j d (omega arith) q

      nor :
          fits linker name plugin e ≡ false
          → NoneFits name plugin es
          → NoneFits name plugin (e ∷ es)
      nor h later zero d q = let same_entry : e ≡ d = cc in rw⁻¹ same_entry h
      nor h later (suc j) d q = later j d q

  entry_get-first :
      (name plugin : N) (errmode : Bool) (entries : List (Entry N P)) (i : ℕ) (e : Entry N P)
      → IsFirst name plugin entries i e
      → entry_get linker entries name plugin errmode
        ≡ ok (some e.subcontractor, (if same plugin empty then e.plugin else plugin))
  entry_get-first name plugin errmode [] i e f = let q = f.found in cc
  entry_get-first name plugin errmode (d ∷ ds) zero e f =
      let q = f.found in
      let same_entry : e ≡ d = cc in
      let here : fits linker name plugin d ≡ true = rw⁻¹ same_entry f.fitting in
      rw (here, same_entry) refl
  entry_get-first name plugin errmode (d ∷ ds) (suc i) e f =
      let not_here = f.first 0 d (omega arith) refl in
      rw not_here (
        entry_get-first name plugin errmode ds i e (record {
          found = f.found;
          fitting = f.fitting;
          first = λ j x lt q. f.first (suc j) x (omega arith) q;
        }))

  entry_get-none :
      (name plugin : N) (entries : List (Entry N P))
      → NoneFits name plugin entries
      → (entry_get linker entries name plugin true ≡ ok (none, plugin))
        × (entry_get linker entries name plugin false ≡ throws Error.unregistered_kind)
  entry_get-none name plugin [] h = (refl, refl)
  entry_get-none name plugin (e ∷ es) h =
      let not_here = h 0 e refl in
      rw not_here (entry_get-none name plugin es (λ j d q. h (suc j) d q))

  -- A look-up gives the subcontractor of the first entry that fits, with its plug-in's name where no
  -- plug-in was asked for. Where no entry fits, it gives a null pointer with `errmode` and throws
  -- without.
  pub entry_get_lem :
      (name plugin : N) (entries : List (Entry N P))
      → ((i : ℕ) × (e : Entry N P) × IsFirst name plugin entries i e
          × ((errmode : Bool)
              → entry_get linker entries name plugin errmode
                ≡ ok (some e.subcontractor, (if same plugin empty then e.plugin else plugin))))
        ⊎ (((j : ℕ) (d : Entry N P)
              → get_elem? entries j ≡ some d
              → fits linker name plugin d ≡ false)
            × (entry_get linker entries name plugin true ≡ ok (none, plugin))
            × (entry_get linker entries name plugin false ≡ throws Error.unregistered_kind))
  entry_get_lem name plugin entries = elim (IsFirst-cases name plugin entries) [
    | inl (i, e, f) ↦ inl (i, e, f, λ errmode. entry_get-first name plugin errmode entries i e f)
    | inr nowhere ↦
        let (null, throwing) = entry_get-none name plugin entries nowhere in
        inr (nowhere, null, throwing)
  ]

  -- What a look-up leaves in `plugin`: the plug-in of the entry where any was asked for.
  abbrev pub named : N → Entry N P → N
  named p e = if same p empty then e.plugin else p

  -- The kind stands in one of the first `n` plug-ins of the list.
  abbrev pub Registered : N → List N → List (Entry N P) → ℕ → Type 0
  Registered name plugin entries n =
      (i : ℕ) × (p : N) × (j : ℕ) × (e : Entry N P) × (i < n)
      × (get_elem? plugin i ≡ some p)
      × IsFirst name p entries j e

  pub search_down-found :
      (name : N) (plugin : List N) (entries : List (Entry N P)) (n : ℕ)
      → n ≤ length plugin
      → Registered name plugin entries n
      → (i : ℕ) × (p : N) × (j : ℕ) × (e : Entry N P) × (i < n)
        × (get_elem? plugin i ≡ some p)
        × IsFirst name p entries j e
        × (search_down linker entries name plugin n
            ≡ ok (e.subcontractor, set plugin i (named p e)))
        × ((k : ℕ) (q : N) → i < k → k < n → get_elem? plugin k ≡ some q → NoneFits name q entries)
  search_down-found name plugin entries zero h (i, p, j, e, lt, g, f) = absurd (omega arith)
  search_down-found name plugin entries (suc n) h (i, p, j, e, lt, g, f) =
      let (q, there) = get_elem?-some plugin n (omega arith) in
      elim (IsFirst-cases name q entries) [
        | inl (j', e', f') ↦ (
          n,
          q,
          j',
          e',
          omega arith,
          there,
          f',
          rw (there, entry_get-first name q true entries j' e' f') refl,
          λ k r lo hi. absurd (omega arith),
        )
        | inr nowhere ↦
            let ne : i ≢ n = λ same_index. no_clash q nowhere there same_index in
            let (i₂, p₂, j₂, e₂, lt₂, g₂, f₂, r₂, above) =
              search_down-found name plugin entries n (omega arith)
                (i, p, j, e, omega (arith, ne), g, f) in
            (
              i₂,
              p₂,
              j₂,
              e₂,
              omega arith,
              g₂,
              f₂,
              rw (there, (entry_get-none name q entries nowhere).0) r₂,
              higher q nowhere there above,
            )
      ]
    where
      no_clash : (q : N) → NoneFits name q entries → get_elem? plugin n ≡ some q → i ≡ n → ⊥
      no_clash q nowhere there same_index =
          let same_plugin : p ≡ q = cc in
          let no : fits linker name q e ≡ false = nowhere j e f.found in
          let yes_it_does : fits linker name q e ≡ true = rw⁻¹ same_plugin f.fitting in cc

      higher :
          {i₂ : ℕ} (q : N)
          → NoneFits name q entries
          → get_elem? plugin n ≡ some q
          → ((k : ℕ) (r : N)
              → i₂ < k
              → k < n
              → get_elem? plugin k ≡ some r
              → NoneFits name r entries)
          → (k : ℕ) (r : N) → i₂ < k
          → k < suc n
          → get_elem? plugin k ≡ some r
          → NoneFits name r entries
      higher q nowhere there above k r lo hi g = elim (ℕ_discrete k n) [
        | yes top ↦ let same_plugin : q ≡ r = cc in rw⁻¹ same_plugin nowhere
        | no below ↦ above k r lo (omega arith) g
      ]

  pub search_down-missing :
      (name : N) (plugin : List N) (entries : List (Entry N P)) (n : ℕ)
      → n ≤ length plugin
      → ((i : ℕ) (p : N) → get_elem? plugin i ≡ some p → NoneFits name p entries)
      → search_down linker entries name plugin n ≡ undefined
  search_down-missing name plugin entries zero h nowhere = refl
  search_down-missing name plugin entries (suc n) h nowhere =
      let (q, there) = get_elem?-some plugin n (omega arith) in
      rw (there, (entry_get-none name q entries (nowhere n q there)).0)
        (search_down-missing name plugin entries n (omega arith) nowhere)
