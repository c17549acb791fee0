-- ===== src/Register/Startup/Names.antt =====
-- Lists of plug-ins as texts.
use gyoto.Prelude.{
  ℕ, suc, ◌+◌, ◌<◌, ◌≡◌, ◌≢◌, refl, ap, Bool, true, false, none, some, List, [], ◌∷◌, ◌++◌, map,
  length, take, drop, Text, find_first_of, starts_with, length-append, arith,
}
use gyoto.Utils.Split.Pieces.{Free}
use gyoto.Utils.Split.Join.{join}
use gyoto.Register.{is_empty}
use gyoto.Register.Startup.{comma, nofail_prefix, cut, unprefixed}

-- A plug-in of the list, by its name, and whether it may fail to load.
abbrev pub Item : Type 0
Item = Text × Bool

abbrev pub item_text : Item → Text
item_text (name, true) = nofail_prefix ++ name
item_text (name, false) = name

abbrev pub list_text : List Item → Text
list_text items = join comma (map item_text items)

-- A name that can stand in the list: not empty, without a comma and, where the plug-in may not fail to
-- load, not one that begins as the prefix does.
abbrev pub IsListable : Item → Type 0
IsListable (name, nofail) =
    (name ≢ []) × Free (comma ∷ []) name × (nofail ≡ false → starts_with nofail_prefix name ≡ false)

abbrev pub AllListable : List Item → Type 0
AllListable [] = Unit
AllListable (item ∷ items) = IsListable item × AllListable items

find_first_of-append :
    (p t : Text)
    → Free (comma ∷ []) p
    → find_first_of (p ++ (comma ∷ t)) (comma ∷ []) 0 ≡ some (length p)
find_first_of-append [] t f = refl
find_first_of-append (c ∷ p) t f = simp (f.0, find_first_of-append p t f.1)

find_first_of-Free : (p : Text) → Free (comma ∷ []) p → find_first_of p (comma ∷ []) 0 ≡ none
find_first_of-Free [] f = refl
find_first_of-Free (c ∷ p) f = simp (f.0, find_first_of-Free p f.1)

take-append : (p t : Text) → take (length p) (p ++ t) ≡ p
take-append [] t = refl
take-append (c ∷ p) t = ap (λ s. c ∷ s) (take-append p t)

drop-append : (p t : Text) (c : ℕ) → drop (length p + 1) (p ++ (c ∷ t)) ≡ t
drop-append [] t c = refl
drop-append (d ∷ p) t c =
    let e : suc (length p) + 1 ≡ suc (length p + 1) = omega arith in rw e (drop-append p t c)

pub unprefixed-item : (item : Item) → IsListable item → unprefixed (item_text item) ≡ item
unprefixed-item (name, true) i = refl
unprefixed-item (name, false) i = simp (i.2 refl)

item_text-Free : (item : Item) → IsListable item → Free (comma ∷ []) (item_text item)
item_text-Free (name, true) i = (refl, (refl, (refl, (refl, (refl, (refl, (refl, i.1)))))))
item_text-Free (name, false) i = i.1

item_text-some : (item : Item) → IsListable item → (c : ℕ) × (t : Text) × (item_text item ≡ c ∷ t)
item_text-some (name, true) i = (_, _, refl)
item_text-some ([], false) i = absurd (i.0 refl)
item_text-some (c ∷ t, false) i = (c, t, refl)

-- The first name of a list, and the list of the others.
pub cut-list :
    (item : Item) (items : List Item)
    → IsListable item
    → cut (list_text (item ∷ items)) (find_first_of (list_text (item ∷ items)) (comma ∷ []) 0)
      ≡ (item_text item, list_text items)
cut-list item [] i =
    let f = find_first_of-Free (item_text item) (item_text-Free item i) in rw f refl
cut-list item (next ∷ items) i =
    let p = item_text item in
    let t = list_text (next ∷ items) in
    let f = find_first_of-append p t (item_text-Free item i) in
    rw (f, take-append p (comma ∷ t), drop-append p t comma) refl

pub list_text-some :
    (item : Item) (items : List Item)
    → IsListable item
    → (is_empty (list_text (item ∷ items)) ≡ false)
      × (length (list_text items) < length (list_text (item ∷ items)))
list_text-some item [] i = let (c, t, e) = item_text-some item i in rw e (refl, omega arith)
list_text-some item (next ∷ items) i =
    let (c, t, e) = item_text-some item i in
    let rest = list_text (next ∷ items) in
    rw e (refl, omega (arith, length-append t (comma ∷ rest)))
