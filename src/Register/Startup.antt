-- ===== src/Register/Startup.antt =====
-- Register::init, in lib/Register.C: the built-in kinds, then the plug-ins of a list in a text such as
-- "stdplug,nofail:lorene".
mod Tests
pub mod Names
pub mod Listed
use gyoto.Prelude.{
  ℕ, zero, suc, ◌+◌, Bool, true, false, if◌then◌else◌, Option, none, some, List, [], ◌∷◌, length,
  take, drop, Text, find_first_of, starts_with, Outcome, ok, ◌>>=◌,
}
use gyoto.Register.{Registers, Linker, run_init, load_plugin, is_empty}

-- The codes of ",", of "nofail:" and of "built-in".
abbrev pub comma : ℕ
comma = 44

abbrev pub nofail_prefix : Text
nofail_prefix = 110 ∷ 111 ∷ 102 ∷ 97 ∷ 105 ∷ 108 ∷ 58 ∷ []

abbrev pub built_in : Text
built_in = 98 ∷ 117 ∷ 105 ∷ 108 ∷ 116 ∷ 45 ∷ 105 ∷ 110 ∷ []

-- pluglist.substr(0, last), and what is left of the list
abbrev pub cut : Text → Option ℕ → Text × Text
cut pluglist none = (pluglist, [])
cut pluglist (some last) = (take last pluglist, drop (last + 1) pluglist)

-- if (!curplug.compare(0, 7, "nofail:")): the name without the prefix, and `nofail`
abbrev pub unprefixed : Text → Text × Bool
unprefixed curplug =
    if starts_with nofail_prefix curplug then (drop 7 curplug, true) else (curplug, false)

-- The first of two texts that is there.
abbrev pub value_or : Text → Option Text → Text
value_or other none = other
value_or other (some given) = given

module _ {P : Type 0} (linker : Linker Text P) where
  -- The loop; every round shortens the list.
  pub load_list : ℕ → Text → Registers Text P → Outcome (Registers Text P)
  load_list zero pluglist s = ok s
  load_list (suc fuel) pluglist s =
      let rest = load_list fuel in
      if is_empty pluglist
      then ok s
      else (let (curplug, left) = cut pluglist (find_first_of pluglist (comma ∷ []) 0) in
          let (name, nofail) = unprefixed curplug in
          load_plugin linker name nofail s >>= λ r. rest left r.1)

  -- The registers are cleaned and filled with the kinds that the library itself registers.
  abbrev pub fresh : List (Text × P) → Registers Text P
  fresh kinds =
      run_init linker kinds (record { entries = []; plugins = built_in ∷ []; current = built_in })

  -- init(cpluglist), with the variable GYOTO_PLUGINS and the default list
  pub init : List (Text × P) → Option Text → Text → Option Text → Outcome (Registers Text P)
  unfolding load_list
  init kinds gyoto_plugins default_plugins cpluglist =
      let pluglist = value_or (value_or default_plugins gyoto_plugins) cpluglist in
      load_list (length pluglist) pluglist (fresh kinds)
