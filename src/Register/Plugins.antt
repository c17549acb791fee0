-- ===== src/Register/Plugins.antt =====
-- What loading plug-ins keeps, and the look-up in a list of plug-ins.
use gyoto.Prelude.{
  ℕ, zero, suc, ◌≡◌, ◌≢◌, ◌<◌, refl, sym, ap, ◌∙◌, Bool, true, false, Bool-cases, ◌⊎◌, inl, inr,
  Option, none, some, List, [], ◌∷◌, ◌++◌, length, get_elem?, get_elem?-append_cases, get_elem?-lt,
  set, Outcome, ok, undefined, ◌>>=◌, >>=-eq-ok, ok-injective, arith,
}
use mathlib.Core.List.{append_assoc}
use gyoto.Register.{
  Entry, Registers, Linker, register, have_plugin, open_plugin, run_init, load_plugin,
  require_plugin, require_all, is_empty, get_subcontractor,
}
use gyoto.Register.Lookup.{
  IsFirst, NoneFits, Registered, named, search_down-found, search_down-missing,
}

option_cases : {A : Type 0} (o : Option A) → (o ≡ none) ⊎ ((a : A) × (o ≡ some a))
option_cases none = inl refl
option_cases (some a) = inr (a, refl)

is_empty-false : {A : Type 0} (xs : List A) → xs ≢ [] → is_empty xs ≡ false
is_empty-false [] h = absurd (h refl)
is_empty-false (x ∷ xs) h = refl

module _ {N P : Type 0} (linker : Linker N P) where
  open linker use {same, file_name, init_function}

  -- Every entry has the name of a plug-in that is listed as loaded.
  abbrev pub IsAccounted : Registers N P → Type 0
  IsAccounted s =
      (i : ℕ) (e : Entry N P)
      → get_elem? s.entries i ≡ some e
      → (k : ℕ) × (get_elem? s.plugins k ≡ some e.plugin)

  -- What an init function has added to the chain.
  pub record Adds (nam : N) (s s' : Registers N P) : Type 0 where
    pub added : List (Entry N P)
    pub chain : s'.entries ≡ added ++ s.entries
    pub named : (i : ℕ) (e : Entry N P) → get_elem? added i ≡ some e → e.plugin ≡ nam

  pub run_init-kept :
      (ks : List (N × P)) (s : Registers N P)
      → ((run_init linker ks s).plugins ≡ s.plugins) × ((run_init linker ks s).current ≡ s.current)
  run_init-kept [] s = (refl, refl)
  run_init-kept (k ∷ ks) s = run_init-kept ks (register linker k.0 k.1 s)

  pub run_init-Adds :
      (ks : List (N × P)) (s : Registers N P) → Adds s.current s (run_init linker ks s)
  run_init-Adds [] s = record { added = []; chain = refl; named = λ i e q. cc }
  run_init-Adds (k ∷ ks) s =
      let new : Entry N P = record { name = k.0; subcontractor = k.1; plugin = s.current } in
      let rest = run_init-Adds ks (register linker k.0 k.1 s) in
      record {
        added = rest.added ++ (new ∷ []);
        chain = rest.chain ∙ sym (append_assoc rest.added (new ∷ []) s.entries);
        named = λ i e q. elim (get_elem?-append_cases rest.added (new ∷ []) i q) [
          | inl old ↦ rest.named i e old
          | inr (j, last) ↦ of_last new j e last refl
        ];
      }
    where
      of_last :
          (new : Entry N P) (j : ℕ) (e : Entry N P)
          → get_elem? (new ∷ []) j ≡ some e
          → new.plugin ≡ s.current
          → e.plugin ≡ s.current
      of_last new zero e q same_plugin =
          let same_entry : new ≡ e = cc in rw⁻¹ same_entry same_plugin
      of_last new (suc j) e q same_plugin = cc

  Adds-IsAccounted :
      (nam : N) (s s' : Registers N P)
      → Adds nam s s'
      → s'.plugins ≡ nam ∷ s.plugins
      → IsAccounted s
      → IsAccounted s'
  Adds-IsAccounted nam s s' adds more a i e q =
      let chain = adds.chain in
      let q' : get_elem? (adds.added ++ s.entries) i ≡ some e = rw⁻¹ chain q in
      elim (get_elem?-append_cases adds.added s.entries i q') [
        | inl new ↦ (0, rw (more, adds.named i e new) refl)
        | inr (j, old) ↦ let (k, r) = a j e old in (suc k, rw more r)
      ]

  -- The registers after a plug-in has been loaded.
  abbrev after_load : N → List (N × P) → Registers N P → Registers N P
  after_load nam kinds s =
      let s' = run_init linker kinds (record s { current = nam }) in
      record s' { current = s.current; plugins = nam ∷ s'.plugins }

  loaded_by :
      (nam : N) (nofail : Bool) (s s' : Registers N P)
      → load_plugin linker nam nofail s ≡ ok (true, s')
      → (kinds : List (N × P)) × (s' ≡ after_load nam kinds s)
  unfolding load_plugin
  loaded_by nam nofail s s' r = elim (option_cases (open_plugin linker (file_name nam))) [
    | inl closed ↦ elim (Bool-cases nofail) [
      | inl quiet ↦ let r' = rw (load_plugin, closed, quiet) at r in cc
      | inr loud ↦ let r' = rw (load_plugin, closed, loud) at r in cc
    ]
    | inr (handle, opened) ↦ elim (option_cases (init_function handle)) [
      | inl missing ↦ let r' = rw (load_plugin, opened, missing) at r in cc
      | inr (kinds, there) ↦ let r' = rw (load_plugin, opened, there) at r in (kinds, cc)
    ]
  ]

  -- A plug-in that loads is listed as loaded, the name for new entries is again what it was, the
  -- entries that its init function has added stand before the old ones and bear its name, and every
  -- entry still has the name of a plug-in listed as loaded.
  pub load_plugin_lem :
      (nam : N) (nofail : Bool) (s s' : Registers N P)
      → load_plugin linker nam nofail s ≡ ok (true, s')
      → (s'.plugins ≡ nam ∷ s.plugins)
        × (s'.current ≡ s.current)
        × Adds nam s s'
        × (IsAccounted s → IsAccounted s')
  load_plugin_lem nam nofail s s' r =
      let (kinds, made) = loaded_by nam nofail s s' r in
      let start = record s { current = nam } in
      let (kept, _) = run_init-kept kinds start in
      let adds = run_init-Adds kinds start in
      let done = after_load nam kinds s in
      let adds' : Adds nam s done = record {
        added = adds.added;
        chain = adds.chain;
        named = adds.named;
      } in
      let listed : done.plugins ≡ nam ∷ s.plugins = ap (λ ps. nam ∷ ps) kept in
      rw made (listed, refl, adds', Adds-IsAccounted nam s done adds' listed)

  pub not_loaded :
      (nam : N) (nofail : Bool) (s s' : Registers N P)
      → load_plugin linker nam nofail s ≡ ok (false, s')
      → s' ≡ s
  unfolding load_plugin
  not_loaded nam nofail s s' r = elim (option_cases (open_plugin linker (file_name nam))) [
    | inl closed ↦ elim (Bool-cases nofail) [
      | inl quiet ↦ let r' = rw (load_plugin, closed, quiet) at r in cc
      | inr loud ↦ let r' = rw (load_plugin, closed, loud) at r in cc
    ]
    | inr (handle, opened) ↦ elim (option_cases (init_function handle)) [
      | inl missing ↦ let r' = rw (load_plugin, opened, missing) at r in cc
      | inr (kinds, there) ↦ let r' = rw (load_plugin, opened, there) at r in cc
    ]
  ]

  -- Once requirePlugin has returned, requiring the same plug-in again returns at once and changes
  -- nothing, also where the plug-in could not be loaded and need not be.
  pub require_plugin-require_plugin :
      (nam : N) (nofail : Bool) (s s' : Registers N P)
      → same nam nam ≡ true
      → require_plugin linker nam nofail s ≡ ok s'
      → require_plugin linker nam nofail s' ≡ ok s'
  unfolding require_plugin
  require_plugin-require_plugin nam nofail s s' own r =
      elim (Bool-cases (have_plugin linker nam s.plugins)) [
        | inl here ↦
            let r' = rw (require_plugin, here) at r in
            let same_state : s' ≡ s = cc in rw (same_state, here) refl
        | inr absent ↦
            let r' = rw (require_plugin, absent) at r in
            let ((loaded, t), l, f) =
              >>=-eq-ok (load_plugin linker nam nofail s) (λ x. ok x.1) r' in
            let same_state : t ≡ s' = ok-injective f in again loaded t l same_state absent
      ]
    where
      again :
          (loaded : Bool) (t : Registers N P)
          → load_plugin linker nam nofail s ≡ ok (loaded, t)
          → t ≡ s'
          → have_plugin linker nam s.plugins ≡ false
          → require_plugin linker nam nofail s' ≡ ok s'
      again true t l e absent =
          let listed = (load_plugin_lem nam nofail s t l).0 in rw⁻¹ e (rw (listed, own) refl)
      again false t l e absent =
          let unchanged = not_loaded nam nofail s t l in
          rw⁻¹ e (rw (unchanged, absent) (let l' = rw unchanged at l in rw l' refl))

  -- With a list of plug-ins that load and a register that is not empty, getSubcontractor gives the
  -- kind from the last plug-in of the list that has it, where one has. The list is left with the name of
  -- the entry's plug-in in that place if the name there was empty, and otherwise as it was.
  pub get_subcontractor_lem :
      (name p : N) (ps : List N) (errmode : Bool) (s s' : Registers N P)
      → require_all linker (p ∷ ps) s ≡ ok s'
      → s'.entries ≢ []
      → Registered linker name (p ∷ ps) s'.entries (length (p ∷ ps))
      → (i : ℕ) × (q : N) × (j : ℕ) × (e : Entry N P) × (get_elem? (p ∷ ps) i ≡ some q)
        × IsFirst linker name q s'.entries j e
        × ((k : ℕ) (r : N)
            → i < k
            → get_elem? (p ∷ ps) k ≡ some r
            → NoneFits linker name r s'.entries)
        × (get_subcontractor linker name (p ∷ ps) errmode s
            ≡ ok (some e.subcontractor, set (p ∷ ps) i (named linker q e), s'))
  unfolding get_subcontractor
  get_subcontractor_lem name p ps errmode s s' loaded full there =
      let (i, q, j, e, lt, g, f, r, above) =
        search_down-found linker name (p ∷ ps) s'.entries (length (p ∷ ps)) (omega arith) there in
      (
        i,
        q,
        j,
        e,
        g,
        f,
        λ k x lo h. above k x lo (get_elem?-lt (p ∷ ps) k h) h,
        rw (get_subcontractor, loaded, is_empty-false s'.entries full)
            (ap {A = Outcome (P × List N)} (λ m. m >>= λ found. ok (some found.0, found.1, s')) r),
      )

  -- A kind that none of the plug-ins of the list has makes getSubcontractor read past the end of the
  -- list, with and without `errmode`: its loop goes down an unsigned index and never ends at 0.
  pub get_subcontractor-missing :
      (name p : N) (ps : List N) (errmode : Bool) (s s' : Registers N P)
      → require_all linker (p ∷ ps) s ≡ ok s'
      → s'.entries ≢ []
      → ((i : ℕ) (q : N) → get_elem? (p ∷ ps) i ≡ some q → NoneFits linker name q s'.entries)
      → get_subcontractor linker name (p ∷ ps) errmode s ≡ undefined
  unfolding get_subcontractor
  get_subcontractor-missing name p ps errmode s s' loaded full nowhere =
      rw (get_subcontractor, loaded, is_empty-false s'.entries full)
        (ap {A = Outcome (P × List N)} (λ m. m >>= λ found. ok (some found.0, found.1, s'))
          (search_down-missing linker name (p ∷ ps) s'.entries (length (p ∷ ps)) (omega arith)
            nowhere))
