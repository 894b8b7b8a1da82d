-- ===== src/Constellation/Anchor.antt =====
-- frontend/components/list-detail/ListBattleContext.tsx: the item of a list that everyone faces.
pub mod Laws
use rank_verse.Base.{
  ℕ, zero, suc, ◌+◌, ◌%◌, String, Bool, true, false, Option, none, some, List, [], ◌∷◌, length,
  get_elem?, str_eq, if◌then◌else◌,
}
use rank_verse.Constellation.{ListItem}
use rank_verse.Constellation.Link.{battle_opponents}

abbrev pub nonempty : List ℕ → Bool
nonempty [] = false
nonempty (x ∷ xs) = true

-- `battleOpponents(items, i).length > 0`
unfoldable pub has_opponents : List ListItem → ℕ → Bool
unfolding battle_opponents
has_opponents items i = nonempty (battle_opponents items i)

-- The loop downwards, from the indexes below `n` on.
unfoldable pub default_from : List ListItem → ℕ → ℕ
default_from items zero = 0
default_from items (suc i) =
    let lower = default_from items i in if has_opponents items i then i else lower

unfoldable pub default_anchor : List ListItem → ℕ
unfolding default_from
default_anchor items = default_from items (length items)

-- The loop from `step` on, with its rounds counted.
unfoldable pub next_from : List ListItem → ℕ → ℕ → ℕ → ℕ
next_from items current step zero = current
next_from items current step (suc n) =
    let index = (current + step) % length items in
    let later = next_from items current (step + 1) n in
    if has_opponents items index then index else later

unfoldable pub next_anchor : List ListItem → ℕ → ℕ
unfolding next_from
next_anchor items current = next_from items current 1 (length items)

-- `findIndex` by id; `none` is -1.
unfoldable pub find_id : String → List ListItem → ℕ → Option ℕ
find_id id [] k = none
find_id id (item ∷ items) k =
    let rest = find_id id items (k + 1) in if str_eq item.id id then some k else rest

pub record ListBattle : Type 0 where
  pub anchor_id : Option String
  pub run_id : ℕ

abbrev pub initial : ListBattle
initial = record { anchor_id = none; run_id = 0 }

abbrev id_of : Option ListItem → Option String
id_of none = none
id_of (some item) = some item.id

unfoldable pub start : List ListItem → ℕ → ListBattle → ListBattle
start items index s = record s { anchor_id = id_of (get_elem? items index); run_id = s.run_id + 1 }

abbrev pub or_default : List ListItem → Option ℕ → ℕ
or_default items none = default_anchor items
or_default items (some i) = i

abbrev found : List ListItem → Option String → Option ℕ
found items none = none
found items (some id) = if str_eq id "" then none else find_id id items 0

unfoldable pub anchor : List ListItem → ListBattle → ℕ
unfolding find_id
anchor items s = or_default items (found items s.anchor_id)
