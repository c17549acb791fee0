-- ===== src/Prelude/Strings.antt =====
-- Text as lists of character codes, with the tests and searches of `std::string`.
use Prim.Native.Char.{code}
use Prim.Native.String.{String}
use gyoto.Prelude.Tests.{◌==◌, if◌then◌else◌}
use Prim.Native.Nat.{ℕ, zero, suc}
use mathlib.Core.Path.{◌≡◌, refl}
use mathlib.Core.Bool.{Bool, true, false, ◌&&◌, ◌||◌}
use mathlib.Core.List.{List, [], ◌∷◌}
use mathlib.Core.Option.{Option, none, some}
use native.Mathlib.Omega.{arith}
use native.Mathlib.Decide.{ℕ_discrete}

abbrev pub Text : Type 0
Text = List ℕ

-- A literal as the codes of its characters.
abbrev pub codes : String → Text
codes String.[] = []
codes (String.◌∷◌ c s) = code c ∷ codes s

abbrev pub same : Text → Text → Bool
same [] [] = true
same [] (d ∷ ds) = false
same (c ∷ cs) [] = false
same (c ∷ cs) (d ∷ ds) = (c == d) && same cs ds

pub same_refl : (t : Text) → same t t ≡ true
same_refl [] = refl
same_refl (c ∷ cs) = ground (arith, same_refl cs)

pub same→≡ : (s t : Text) → same s t ≡ true → s ≡ t
same→≡ [] [] e = refl
same→≡ [] (d ∷ ds) e = cc
same→≡ (c ∷ cs) [] e = cc
same→≡ (c ∷ cs) (d ∷ ds) e = elim (ℕ_discrete c d) [
  | yes h ↦ let t : cs ≡ ds = same→≡ cs ds (ground arith) in cc
  | no ne ↦ absurd (ground arith)
]

abbrev pub has_char : ℕ → Text → Bool
has_char c [] = false
has_char c (d ∷ ds) = (c == d) || has_char c ds

-- find_first_of(delim, pos): the first index from `pos` on of a character of `delim`.
abbrev pub find_first_of : Text → Text → ℕ → Option ℕ
find_first_of [] delim pos = none
find_first_of (c ∷ cs) delim zero =
    let rest = find_first_of cs delim zero in
    if has_char c delim then some 0 else elim rest [ none ↦ none | some k ↦ some (suc k) ]
find_first_of (c ∷ cs) delim (suc pos) = elim (find_first_of cs delim pos) [
  | none ↦ none
  | some k ↦ some (suc k)
]

-- compare(0, n, prefix) == 0, for a prefix of length n
abbrev pub starts_with : Text → Text → Bool
starts_with [] t = true
starts_with (p ∷ ps) [] = false
starts_with (p ∷ ps) (c ∷ cs) = (p == c) && starts_with ps cs
