-- ===== src/Utils/Split.antt =====
-- Gyoto::split, in lib/Utils.C: the pieces of a text between delimiters.
mod Tests
pub mod Pieces
pub mod Join
use gyoto.Prelude.{
  ℕ, zero, suc, ◌+◌, ◌-◌, ◌==◌, ltb, if◌then◌else◌, Option, none, some, List, [], ◌∷◌, length, take,
  drop, Text, find_first_of,
}

-- src.substr(pos, n)
abbrev pub substr : Text → ℕ → ℕ → Text
substr src pos n = take n (drop pos src)

-- A round of the loop, with what find_first_of gives and what the next rounds give.
abbrev pub split_round : (ℕ → List Text) → Text → ℕ → Option ℕ → List Text
split_round rest src pos none = drop pos src ∷ []
split_round rest src pos (some fpos) =
    if fpos == pos then rest (pos + 1) else substr src pos (fpos - pos) ∷ rest (fpos + 1)

-- Every round raises `pos`. An index of `none` ends the loop.
pub split_loop : ℕ → Text → Text → ℕ → List Text
split_loop zero src delim pos = []
split_loop (suc fuel) src delim pos =
    let rest = split_loop fuel src delim in
    if ltb pos (length src) then split_round rest src pos (find_first_of src delim pos) else []

pub split : Text → Text → List Text
unfolding split_loop
split src delim = split_loop (length src) src delim 0
