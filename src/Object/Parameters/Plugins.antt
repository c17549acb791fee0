-- ===== src/Object/Parameters/Plugins.antt =====
-- The attribute "plugin" that fillElement writes.
use gyoto.Prelude.{
  some, true, ltb, ℕ_discrete, ◌∙◌, get_elem?, ◌%◌, ℕ, zero, suc, ◌+◌, ◌^◌, ◌≡◌, ◌≤◌, ◌<◌, refl,
  List, [], ◌∷◌, ◌++◌, length, get_elem?-some, Text, ok, arith,
}
use gyoto.Object.Parameters.{unfinished, join_plugins, plugin_attribute}

join_plugins_step :
    (fuel : ℕ) (plgs : List Text) (np : ℕ) (plg name : Text)
    → 1 < np
    → get_elem? plgs 1 ≡ some name
    → join_plugins (suc fuel) plgs 1 np plg
      ≡ join_plugins fuel plgs 1 ((np + 1) % 2 ^ 64) (plg ++ (44 ∷ name))
unfolding join_plugins
join_plugins_step fuel plgs np plg name more e =
    let below : ltb 1 np ≡ true = ground (arith, more) in rw (below, e) refl

join_plugins-goes_on :
    (fuel : ℕ) (plgs : List Text) (np : ℕ) (plg : Text)
    → 1 < length plgs
    → 1 < np
    → np + fuel ≤ 2 ^ 64
    → join_plugins fuel plgs 1 np plg ≡ ok unfinished
unfolding join_plugins
join_plugins-goes_on zero plgs np plg two more bound = refl
join_plugins-goes_on (suc fuel) plgs np plg two more bound =
    let (name, e) = get_elem?-some plgs 1 two in
    elim (ℕ_discrete fuel 0) [
      | yes last ↦ join_plugins_step fuel plgs np plg name more e ∙ rw last refl
      | no ne ↦
          let next : (np + 1) % 2 ^ 64 ≡ np + 1 = omega arith in
          join_plugins_step fuel plgs np plg name more e
          ∙ rw next (
              join_plugins-goes_on fuel plgs (np + 1) (plg ++ (44 ∷ name)) two (omega arith)
                (omega arith))
    ]

-- With two plug-ins or more, the loop of fillElement has not ended after 2^64 - n rounds, n being
-- their number.
pub plugin_attribute-goes_on :
    (fuel : ℕ) (plgs : List Text)
    → 1 < length plgs
    → length plgs + fuel ≤ 2 ^ 64
    → plugin_attribute fuel plgs ≡ ok unfinished
unfolding plugin_attribute
plugin_attribute-goes_on fuel [] two bound = absurd (omega arith)
plugin_attribute-goes_on fuel (p ∷ ps) two bound =
    join_plugins-goes_on fuel (p ∷ ps) (length (p ∷ ps)) p two two bound
