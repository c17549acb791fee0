-- ===== src/Register/Startup/Listed.antt =====
-- init loads what its list names.
use gyoto.Prelude.{
  ℕ, zero, suc, ◌≤◌, ◌≡◌, refl, ap, Bool, true, false, inl, inr, Option, some, List, [], ◌∷◌, ◌++◌,
  length, get_elem?, get_elem?-append_cases, Text, Outcome, ok, ok-injective, Option-cases, subst,
  ◌>>=◌, >>=-eq-ok, arith,
}
use gyoto.Register.{Registers, Linker, load_plugin, open_plugin}
use gyoto.Register.Plugins.{IsAccounted, load_plugin_lem, not_loaded, run_init-Adds, run_init-kept}
use gyoto.Register.Startup.{load_list, init, fresh, built_in}
use gyoto.Register.Startup.Names.{
  Item, list_text, AllListable, cut-list, list_text-some, unprefixed-item,
}

module _ {P : Type 0} (linker : Linker Text P) where
  -- The plug-ins of a list loaded one after the other.
  abbrev pub load_each : List Item → Registers Text P → Outcome (Registers Text P)
  load_each [] s = ok s
  load_each (item ∷ items) s = load_plugin linker item.0 item.1 s >>= λ r. load_each items r.1

  load_list_lem :
      (fuel : ℕ) (items : List Item) (s : Registers Text P)
      → AllListable items
      → length (list_text items) ≤ fuel
      → load_list linker fuel (list_text items) s ≡ load_each items s
  unfolding load_list
  load_list_lem zero [] s a enough = refl
  load_list_lem (suc fuel) [] s a enough = refl
  load_list_lem zero (item ∷ items) s a enough =
      absurd (omega (arith, (list_text-some item items a.0).1))
  load_list_lem (suc fuel) (item ∷ items) s a enough =
      let (some_text, shorter) = list_text-some item items a.0 in
      let rest : (λ (r : Bool × Registers Text P). load_list linker fuel (list_text items) r.1)
          ≡ (λ r. load_each items r.1) =
        λ i r. load_list_lem fuel items r.1 a.1 (omega arith) i in
      rw (some_text, cut-list item items a.0, unprefixed-item item a.0)
        (ap (λ next. load_plugin linker item.0 item.1 s >>= next) rest)

  -- Every plug-in that may not fail to load stands in the list of loaded ones.
  abbrev pub AllLoaded : List Item → List Text → Type 0
  AllLoaded [] plugins = Unit
  AllLoaded ((name, true) ∷ items) plugins = AllLoaded items plugins
  AllLoaded ((name, false) ∷ items) plugins =
      ((k : ℕ) × (get_elem? plugins k ≡ some name)) × AllLoaded items plugins

  -- A plug-in listed stays listed.
  abbrev Keeps : Registers Text P → Registers Text P → Type 0
  Keeps s s' =
      (k : ℕ) (name : Text)
      → get_elem? s.plugins k ≡ some name
      → (j : ℕ) × (get_elem? s'.plugins j ≡ some name)

  load_plugin-Keeps :
      (name : Text) (nofail loaded : Bool) (s s' : Registers Text P)
      → load_plugin linker name nofail s ≡ ok (loaded, s')
      → IsAccounted linker s
      → IsAccounted linker s' × Keeps s s'
  load_plugin-Keeps name nofail true s s' r a =
      let (listed, same_current, adds, accounted) = load_plugin_lem linker name nofail s s' r in
      (accounted a, λ k other e. (suc k, rw listed e))
  load_plugin-Keeps name nofail false s s' r a =
      let same_state = not_loaded linker name nofail s s' r in
      (rw same_state a, λ k other e. (k, rw same_state e))

  must_load :
      (name : Text) (loaded : Bool) (s s' : Registers Text P)
      → load_plugin linker name false s ≡ ok (loaded, s')
      → loaded ≡ true
  unfolding load_plugin
  must_load name loaded s s' r = elim (Option-cases (open_plugin linker (linker.file_name name))) [
    | inl closed ↦ let r' = rw (load_plugin, closed) at r in cc
    | inr (handle, opened) ↦ elim (Option-cases (linker.init_function handle)) [
      | inl missing ↦ let r' = rw (load_plugin, opened, missing) at r in cc
      | inr (kinds, there) ↦ let r' = rw (load_plugin, opened, there) at r in cc
    ]
  ]

  load_plugin-listed :
      (name : Text) (loaded : Bool) (s s' : Registers Text P)
      → load_plugin linker name false s ≡ ok (loaded, s')
      → get_elem? s'.plugins 0 ≡ some name
  load_plugin-listed name loaded s s' r =
      let r' =
        subst (λ b. load_plugin linker name false s ≡ ok (b, s')) (must_load name loaded s s' r)
          r in
      let listed = (load_plugin_lem linker name false s s' r').0 in rw listed refl

  load_each_lem :
      (items : List Item) (s s' : Registers Text P)
      → load_each items s ≡ ok s'
      → IsAccounted linker s
      → IsAccounted linker s' × Keeps s s' × AllLoaded items s'.plugins
  load_each_lem [] s s' r a =
      let same_state : s ≡ s' = ok-injective r in
      (rw⁻¹ same_state a, λ k name e. (k, rw⁻¹ same_state e), tt)
  load_each_lem ((name, true) ∷ items) s s' r a =
      let ((loaded, t), first, rest) = >>=-eq-ok (load_plugin linker name true s) _ r in
      let (at, kt) = load_plugin-Keeps name true loaded s t first a in
      let (a', k', all) = load_each_lem items t s' rest at in
      (a', λ k other e. let (j, f) = kt k other e in k' j other f, all)
  load_each_lem ((name, false) ∷ items) s s' r a =
      let ((loaded, t), first, rest) = >>=-eq-ok (load_plugin linker name false s) _ r in
      let (at, kt) = load_plugin-Keeps name false loaded s t first a in
      let (a', k', all) = load_each_lem items t s' rest at in
      let here = load_plugin-listed name loaded s t first in
      (a', λ k other e. (let (j, f) = kt k other e in k' j other f), (k' 0 name here, all))

  fresh-IsAccounted : (kinds : List (Text × P)) → IsAccounted linker (fresh linker kinds)
  fresh-IsAccounted kinds i e q =
      let start : Registers Text P = record {
        entries = [];
        plugins = built_in ∷ [];
        current = built_in;
      } in
      let adds = run_init-Adds linker kinds start in
      let (kept, same_current) = run_init-kept linker kinds start in
      let chain = adds.chain in
      let q' : get_elem? (adds.added ++ []) i ≡ some e = rw⁻¹ chain q in
      elim (get_elem?-append_cases adds.added [] i q') [
        | inl new ↦ (0, rw (kept, adds.named i e new) refl)
        | inr (j, old) ↦ cc
      ]

  -- With a list of names that can stand in one, init loads its plug-ins in order, those with the prefix
  -- so that they may fail. Where it returns, every plug-in without the prefix is listed as loaded, and
  -- every entry of the register belongs to a plug-in that is listed.
  pub init_lem :
      (items : List Item) (kinds : List (Text × P)) (gyoto_plugins : Option Text)
      (default_plugins : Text)
      → AllListable items
      → (init linker kinds gyoto_plugins default_plugins (some (list_text items))
          ≡ load_each items (fresh linker kinds))
        × ((s' : Registers Text P)
            → load_each items (fresh linker kinds) ≡ ok s'
            → IsAccounted linker s' × AllLoaded items s'.plugins)
  unfolding init
  init_lem items kinds gyoto_plugins default_plugins a = (
    load_list_lem (length (list_text items)) items (fresh linker kinds) a (omega arith),
    λ s' r.
        let (a', k, all) =
          load_each_lem items (fresh linker kinds) s' r (fresh-IsAccounted kinds) in
        (a', all),
  )
