-- ===== src/Register.antt =====
-- The register of kinds and the plug-ins that fill it, in lib/Register.C and include/GyotoRegister.h.
-- `N` is the type of strings and `P` that of pointers to subcontractors. One register is modelled: each
-- of the four (metrics, objects, spectra, spectrometers) goes by the same code. The dynamic linker is
-- the parameter `Linker`.
pub mod Lookup
pub mod Plugins
pub mod Startup
mod Tests
use gyoto.Prelude.{
  ℕ, zero, suc, ◌+◌, ◌-◌, Bool, true, false, ◌&&◌, ◌||◌, not, if◌then◌else◌, Option, none, some,
  List, [], ◌∷◌, ◌++◌, map, length, get_elem?, set, Outcome, ok, throws, undefined, or_undefined,
  Error, ◌>>=◌,
}

pub record Entry (N P : Type 0) : Type 0 where
  pub name : N
  pub subcontractor : P
  pub plugin : N

-- The register is a chain, the newest entry first; `plugins` are the names of what has been loaded;
-- `current` is the name that new entries get.
pub record Registers (N P : Type 0) : Type 0 where
  pub entries : List (Entry N P)
  pub plugins : List N
  pub current : N

pub record Linker (N P : Type 0) : Type 0 where
  pub same : N → N → Bool
  pub empty : N
  -- the file of a plug-in, the directories to look in, and a path in a directory
  pub file_name : N → N
  pub plug_path : List N
  pub in_directory : N → N → N
  -- dlopen: whether there is such a file; and what its init function registers, where it has one
  pub dlopen : N → Bool
  pub init_function : N → Option (List (N × P))

abbrev pub is_empty {ℓ} : {A : Type ℓ} → List A → Bool
is_empty [] = true
is_empty (x ∷ xs) = false

module _ {N P : Type 0} (linker : Linker N P) where
  open linker use {same, empty, file_name, plug_path, in_directory, dlopen, init_function}

  -- Metric::Register, Astrobj::Register, ...: a new entry at the head of the chain
  abbrev pub register : N → P → Registers N P → Registers N P
  register name scp s = record s {
    entries = record { name = name; subcontractor = scp; plugin = s.current } ∷ s.entries;
  }

  -- name_==name && (any_plugin || (plugin_ == plugin))
  abbrev pub fits : N → N → Entry N P → Bool
  fits name plugin e = same e.name name && (same plugin empty || same e.plugin plugin)

  -- Entry::getSubcontractor: the pointer, null with `errmode` where there is none, and what stands in
  -- `plugin` afterwards.
  abbrev pub entry_get : List (Entry N P) → N → N → Bool → Outcome (Option P × N)
  entry_get [] name plugin true = ok (none, plugin)
  entry_get [] name plugin false = throws Error.unregistered_kind
  entry_get (e ∷ next) name plugin errmode =
      let rest = entry_get next name plugin errmode in
      if fits name plugin e
      then ok (some e.subcontractor, (if same plugin empty then e.plugin else plugin))
      else rest

  abbrev pub have_plugin : N → List N → Bool
  have_plugin name [] = false
  have_plugin name (p ∷ ps) = same p name || have_plugin name ps

  -- The attempts of loadPlugin: the linker's own locations, then each directory.
  abbrev pub open_in : List N → N → Option N
  open_in [] file = none
  open_in (d ∷ ds) file =
      let rest = open_in ds file in
      if dlopen (in_directory d file) then some (in_directory d file) else rest

  pub open_plugin : N → Option N
  open_plugin file = if dlopen file then some file else open_in plug_path file

  -- The calls of Register by an init function.
  abbrev pub run_init : List (N × P) → Registers N P → Registers N P
  run_init [] s = s
  run_init (k ∷ ks) s = run_init ks (register k.0 k.1 s)

  -- loadPlugin(nam, nofail): whether there is a handle, and the registers
  pub load_plugin : N → Bool → Registers N P → Outcome (Bool × Registers N P)
  unfolding open_plugin
  load_plugin nam nofail s = elim (open_plugin (file_name nam)) [
    | none ↦ if nofail then ok (false, s) else throws Error.load_failed
    | some handle ↦ elim (init_function handle) [
      | none ↦ throws Error.init_missing
      | some kinds ↦
          let s' = run_init kinds (record s { current = nam }) in
          ok (true, record s' { current = s.current; plugins = nam ∷ s'.plugins })
    ]
  ]

  pub require_plugin : N → Bool → Registers N P → Outcome (Registers N P)
  unfolding load_plugin
  require_plugin name nofail s =
      if have_plugin name s.plugins then ok s else (load_plugin name nofail s >>= λ r. ok r.1)

  abbrev pub require_all : List N → Registers N P → Outcome (Registers N P)
  unfolding require_plugin
  require_all [] s = ok s
  require_all (p ∷ ps) s = require_plugin p false s >>= require_all ps

  -- for (size_t i=plugin.size()-1; i>=0 && sctr == NULL; --i): the index is unsigned, so that the test
  -- i>=0 holds of every index, and after plugin[0] comes plugin[2^64 - 1]. A look-up that finds an entry
  -- may write to plugin[i], which is passed by reference; one that finds none writes nothing.
  abbrev pub search_down : List (Entry N P) → N → List N → ℕ → Outcome (P × List N)
  search_down entries name plugin zero = undefined
  search_down entries name plugin (suc i) =
      let rest = search_down entries name plugin i in
      do
        p ← or_undefined (get_elem? plugin i)
        r ← entry_get entries name p true
        elim r.0 [ some sctr ↦ ok (sctr, set plugin i r.1) | none ↦ rest ]

  -- GYOTO_GETSUBCONTRACTOR: the pointer, and `plugin` and the registers afterwards
  pub get_subcontractor :
      N → List N → Bool → Registers N P → Outcome (Option P × List N × Registers N P)
  unfolding require_all
  get_subcontractor name plugin errmode s = do
    s' ← require_all plugin s
    if is_empty s'.entries then throws Error.unregistered_kind else elim plugin [
      | [] ↦
          (entry_get s'.entries name empty errmode >>= λ r. elim r.0 [
            | some sctr ↦ ok (some sctr, r.1 ∷ [], s')
            | none ↦
                (search_down s'.entries name (r.1 ∷ []) 1 >>= λ found.
                ok (some found.0, found.1, s'))
          ])
      | p ∷ ps ↦
          (search_down s'.entries name (p ∷ ps) (length (p ∷ ps)) >>= λ found.
          ok (some found.0, found.1, s'))
    ]
