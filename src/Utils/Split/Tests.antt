-- ===== src/Utils/Split/Tests.antt =====
-- Runs of split. 44 is the code of a comma.
use gyoto.Prelude.{◌≡◌, refl, List, [], ◌∷◌, Text}
use gyoto.Utils.Split.{split}
use gyoto.Utils.Split.Pieces.{Pieces}
use gyoto.Utils.Split.Join.{split_lem, split-join, join}

-- ",1,,23" has the pieces "1" and "23".
runs : split (44 ∷ 1 ∷ 44 ∷ 44 ∷ 2 ∷ 3 ∷ []) (44 ∷ []) ≡ (1 ∷ []) ∷ (2 ∷ 3 ∷ []) ∷ []
unfolding split
runs = refl

abbrev list : Text
list = 44 ∷ 1 ∷ 44 ∷ 2 ∷ 44 ∷ []

split_lem_example :
    Pieces (44 ∷ []) list (split list (44 ∷ []))
    × ((ps : List Text) → Pieces (44 ∷ []) list ps → ps ≡ split list (44 ∷ []))
split_lem_example = split_lem (44 ∷ []) list

split-join_example :
    split (join 44 ((1 ∷ 2 ∷ []) ∷ (3 ∷ []) ∷ [])) (44 ∷ []) ≡ (1 ∷ 2 ∷ []) ∷ (3 ∷ []) ∷ []
split-join_example =
    split-join (44 ∷ []) 44 ((1 ∷ 2 ∷ []) ∷ (3 ∷ []) ∷ []) refl
      ((refl, (refl, tt)), (λ e. cc), ((refl, tt), (λ e. cc), tt))
