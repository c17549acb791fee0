-- ===== src/Register/Startup/Tests.antt =====
-- A run of init over the list "A,nofail:B", of which only "A" (code 65) can be loaded.
use gyoto.Prelude.{ℕ, ◌≡◌, refl, true, false, List, [], ◌∷◌, none, some, Text, same, ok}
use gyoto.Register.{Linker, Registers, Entry, load_plugin}
use gyoto.Register.Plugins.{IsAccounted}
use gyoto.Register.Startup.{init, fresh, built_in}
use gyoto.Register.Startup.Names.{Item, list_text}
use gyoto.Register.Startup.Listed.{load_each, AllLoaded, init_lem}

abbrev linker : Linker Text ℕ
linker = record {
  same = same;
  empty = [];
  file_name = λ n. n;
  plug_path = [];
  in_directory = λ d n. n;
  dlopen = λ n. same n (65 ∷ []);
  init_function = λ n. some ((1 ∷ [], 7) ∷ []);
}

abbrev items : List Item
items = (65 ∷ [], false) ∷ (66 ∷ [], true) ∷ []

abbrev entry : Text → ℕ → Text → Entry Text ℕ
entry n s p = record { name = n; subcontractor = s; plugin = p }

run :
    init linker ((2 ∷ [], 5) ∷ []) none [] (some (list_text items))
    ≡ ok (record {
      entries = entry (1 ∷ []) 7 (65 ∷ []) ∷ entry (2 ∷ []) 5 built_in ∷ [];
      plugins = (65 ∷ []) ∷ built_in ∷ [];
      current = built_in;
    })
unfolding init load_plugin
run = refl

init_lem_example :
    (init linker ((2 ∷ [], 5) ∷ []) none [] (some (list_text items))
      ≡ load_each linker items (fresh linker ((2 ∷ [], 5) ∷ [])))
    × ((s' : Registers Text ℕ)
        → load_each linker items (fresh linker ((2 ∷ [], 5) ∷ [])) ≡ ok s'
        → IsAccounted linker s' × AllLoaded linker items s'.plugins)
init_lem_example =
    init_lem linker items ((2 ∷ [], 5) ∷ []) none []
      (((λ e. cc), (refl, tt), λ e. refl), (((λ e. cc), (refl, tt), λ e. cc), tt))
