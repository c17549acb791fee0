-- ===== src/Register/Tests.antt =====
-- Runs of the register over numbers as names.
use gyoto.Prelude.{
  ℕ, zero, suc, ◌+◌, ◌≡◌, ◌<◌, refl, true, false, ◌==◌, ltb, if◌then◌else◌, some, [], ◌∷◌,
  get_elem?, set, ok, arith,
}
use gyoto.Register.{
  Entry, Registers, Linker, fits, load_plugin, require_plugin, require_all, get_subcontractor,
}
use gyoto.Register.Lookup.{named, IsFirst, NoneFits}
use gyoto.Register.Plugins.{Adds, IsAccounted, load_plugin_lem, get_subcontractor_lem}

-- The files are the names plus 100; plug-ins 1 and 2 exist. Plug-in 1 has the kinds 11 and 12, and
-- plug-in 2 has 12 and 13.
abbrev linker : Linker ℕ ℕ
linker = record {
  same = λ a b. a == b;
  empty = 0;
  file_name = λ n. n + 100;
  plug_path = [];
  in_directory = λ d n. d + n;
  dlopen = λ n. ltb n 103;
  init_function =
      λ n. some (if n == 101 then (11, 1011) ∷ (12, 1012) ∷ [] else (12, 2012) ∷ (13, 2013) ∷ []);
}

abbrev at_start : Registers ℕ ℕ
at_start = record { entries = []; plugins = 9 ∷ []; current = 9 }

abbrev entry : ℕ → ℕ → ℕ → Entry ℕ ℕ
entry n s p = record { name = n; subcontractor = s; plugin = p }

abbrev first_loaded : Registers ℕ ℕ
first_loaded = record {
  entries = entry 12 1012 1 ∷ entry 11 1011 1 ∷ [];
  plugins = 1 ∷ 9 ∷ [];
  current = 9;
}

abbrev both_loaded : Registers ℕ ℕ
both_loaded = record {
  entries = entry 13 2013 2 ∷ entry 12 2012 2 ∷ first_loaded.entries;
  plugins = 2 ∷ 1 ∷ 9 ∷ [];
  current = 9;
}

load_first : load_plugin linker 1 false at_start ≡ ok (true, first_loaded)
unfolding load_plugin
load_first = refl

load_plugin_lem_example :
    (first_loaded.plugins ≡ 1 ∷ at_start.plugins)
    × (first_loaded.current ≡ at_start.current)
    × Adds linker 1 at_start first_loaded
    × (IsAccounted linker at_start → IsAccounted linker first_loaded)
load_plugin_lem_example = load_plugin_lem linker 1 false at_start first_loaded load_first

require_first : require_plugin linker 1 false at_start ≡ ok first_loaded
unfolding require_plugin
require_first = refl

require_both : require_all linker (1 ∷ 2 ∷ []) at_start ≡ ok both_loaded
unfolding require_all
require_both = refl

eleven-IsFirst : IsFirst linker 11 1 both_loaded.entries 3 (entry 11 1011 1)
eleven-IsFirst = record { found = refl; fitting = refl; first = earlier }
  where
    earlier :
        (j : ℕ) (d : Entry ℕ ℕ)
        → j < 3
        → get_elem? both_loaded.entries j ≡ some d
        → fits linker 11 1 d ≡ false
    earlier zero d lt q = let e : entry 13 2013 2 ≡ d = cc in rw⁻¹ e refl
    earlier (suc zero) d lt q = let e : entry 12 2012 2 ≡ d = cc in rw⁻¹ e refl
    earlier (suc (suc zero)) d lt q = let e : entry 12 1012 1 ≡ d = cc in rw⁻¹ e refl
    earlier (suc (suc (suc j))) d lt q = absurd (omega (arith, lt))

get_subcontractor_lem_example :
    (i : ℕ) × (q : ℕ) × (j : ℕ) × (e : Entry ℕ ℕ) × (get_elem? (1 ∷ 2 ∷ []) i ≡ some q)
    × IsFirst linker 11 q both_loaded.entries j e
    × ((k : ℕ) (r : ℕ)
        → i < k
        → get_elem? (1 ∷ 2 ∷ []) k ≡ some r
        → NoneFits linker 11 r both_loaded.entries)
    × (get_subcontractor linker 11 (1 ∷ 2 ∷ []) false at_start
        ≡ ok (some e.subcontractor, set (1 ∷ 2 ∷ []) i (named linker q e), both_loaded))
get_subcontractor_lem_example =
    get_subcontractor_lem linker 11 1 (2 ∷ []) false at_start both_loaded require_both (λ e. cc)
      (0, 1, 3, entry 11 1011 1, omega arith, refl, eleven-IsFirst)

fourteen-NoneFits :
    (i q : ℕ) → get_elem? (1 ∷ 2 ∷ []) i ≡ some q → NoneFits linker 14 q both_loaded.entries
fourteen-NoneFits i q h zero d g = let e : entry 13 2013 2 ≡ d = cc in rw⁻¹ e refl
fourteen-NoneFits i q h (suc zero) d g = let e : entry 12 2012 2 ≡ d = cc in rw⁻¹ e refl
fourteen-NoneFits i q h (suc (suc zero)) d g = let e : entry 12 1012 1 ≡ d = cc in rw⁻¹ e refl
fourteen-NoneFits i q h (suc (suc (suc zero))) d g = let e : entry 11 1011 1 ≡ d = cc in rw⁻¹ e refl
fourteen-NoneFits i q h (suc (suc (suc (suc j)))) d g = cc
