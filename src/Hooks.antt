-- ===== src/Hooks.antt =====
-- Gyoto::Hook, in lib/Hooks.C: the listeners that an object tells when it has changed. The chain of
-- ListenerItem is a list, its first item first; `L` stands for the pointers to listeners.
use gyoto.Prelude.{Bool, if◌then◌else◌, List, [], ◌∷◌}

module _ {L : Type 0} where
  abbrev pub hook : L → List L → List L
  hook hear listeners = hear ∷ listeners

  -- `same` compares two pointers.
  abbrev pub unhook : (L → L → Bool) → L → List L → List L
  unhook same hear [] = []
  unhook same hear (item ∷ next) =
      let rest = unhook same hear next in if same item hear then rest else item ∷ rest

  -- tellListeners: each listener in turn acts on the state that they share.
  abbrev pub tell_listeners : {S : Type 0} → (L → S → S) → List L → S → S
  tell_listeners tell [] s = s
  tell_listeners tell (item ∷ next) s = tell_listeners tell next (tell item s)
