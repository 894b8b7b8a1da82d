-- ===== src/ListPage/Order.antt =====
-- frontend/components/ListItemsManager.tsx: the items of a list on its page, which the owner reorders
-- and removes, and on which viewers vote.
pub mod Stored
pub mod Accepted
use rank_verse.Base.{inr}
use rank_verse.Base.{inl}
use rank_verse.Base.{◌⊎◌}
use rank_verse.Base.{
  ℕ, zero, suc, ◌+◌, ◌-◌, Bool, true, false, not, ◌||◌, String, Option, none, some, List, [], ◌∷◌,
  map, str_eq, ltb, leb, ◌==◌, length, if◌then◌else◌,
}
use rank_verse.Base.Keep.{keep}
use rank_verse.Base.Sort.{sort}
use rank_verse.ListPage.Votes.{VoteState, Request, request_of}

pub record Item : Type 0 where
  pub id : String
  pub position : ℕ
  pub votes : VoteState

-- `[...initialItems].sort((a, b) => a.position - b.position)`
abbrev pub by_position : Item → Item → Bool
by_position a b = leb a.position b.position

unfoldable pub initial_order : Bool → List Item → List Item
initial_order is_community_ordered items =
    if is_community_ordered then items else sort by_position items

pub record Manager : Type 0 where
  pub items : List Item
  pub busy_id : Option String
  pub voting_id : Option String
  pub error : Option String

-- The component's mount, and each new array of the page's provider.
abbrev pub mounted : Bool → List Item → Manager
mounted is_community_ordered items = record {
  items = initial_order is_community_ordered items;
  busy_id = none;
  voting_id = none;
  error = none;
}

unfoldable pub resynced : Bool → List Item → Manager → Manager
resynced is_community_ordered items m = record m {
  items = initial_order is_community_ordered items;
}

-- `[next[i], next[i + 1]] = [next[i + 1], next[i]]`; a button stands beside an item, so `i` is within
-- the list, and `i + 1` past its end is guarded against.
abbrev pub swap_at {ℓ} : {A : Type ℓ} → ℕ → List A → List A
swap_at i [] = []
swap_at i (x ∷ []) = x ∷ []
swap_at zero (x ∷ y ∷ xs) = y ∷ x ∷ xs
swap_at (suc i) (x ∷ y ∷ xs) = x ∷ swap_at i (y ∷ xs)

-- `persistOrder`, up to its request: the ids sent, if any. Here and below, an empty token is none.
unfoldable pub persist_order : Bool → List Item → Manager → Manager × Option (List String)
persist_order false new_items m = (m, none)
persist_order true new_items m = (record m { items = new_items }, some (map (λ i. i.id) new_items))

unfoldable pub move_up : Bool → ℕ → Manager → Manager × Option (List String)
unfolding persist_order
move_up has_token zero m = (m, none)
move_up has_token (suc i) m = persist_order has_token (swap_at i m.items) m

unfoldable pub move_down : Bool → ℕ → Manager → Manager × Option (List String)
unfolding persist_order
move_down has_token index m =
    if index + 1 == length m.items
    then (m, none)
    else persist_order has_token (swap_at index m.items) m

-- The answer to the reordering: nothing, or its error.
unfoldable pub order_answered : Option String → Manager → Manager
order_answered none m = m
order_answered (some message) m = record m { error = some message }

-- `handleRemove` up to its request, where it is confirmed.
unfoldable pub handle_remove : Bool → Bool → String → Manager → Manager × Option String
handle_remove false confirmed item_id m = (m, none)
handle_remove true confirmed item_id m =
    if confirmed
    then (record m { busy_id = some item_id; error = none }, some item_id)
    else (m, none)

unfoldable pub remove_answered : Option String → String → Manager → Manager
remove_answered none item_id m = record m {
  items = keep (λ i. not (str_eq i.id item_id)) m.items;
  busy_id = none;
}
remove_answered (some message) item_id m = record m { busy_id = none; error = some message }

unfoldable pub find_item : String → List Item → Option Item
find_item id [] = none
find_item id (i ∷ items) = let rest = find_item id items in if str_eq i.id id then some i else rest

abbrev voting : String → Option Item → Bool → Manager → Manager × Option Request
voting item_id none is_like m = (m, none)
voting item_id (some current) is_like m =
    (record m { voting_id = some item_id; error = none }, some (request_of current.votes is_like))

-- `performVote` up to its request.
unfoldable pub perform_vote : Bool → String → Bool → Manager → Manager × Option Request
unfolding find_item
perform_vote false item_id is_like m = (m, none)
perform_vote true item_id is_like m = voting item_id (find_item item_id m.items) is_like m

-- `handleVote`, behind the gate's `requireAuth`.
unfoldable pub handle_vote : Bool → String → Bool → Manager → Manager × Option Request
unfolding perform_vote
handle_vote has_token item_id is_like m = elim m.voting_id [
  | none ↦ perform_vote has_token item_id is_like m
  | some id ↦ (m, none)
]

abbrev pub with_votes : String → VoteState → Item → Item
with_votes item_id votes i = if str_eq i.id item_id then record i { votes = votes } else i

-- Either answer to a vote; the order stays put.
unfoldable pub vote_answered : VoteState ⊎ String → String → Manager → Manager
vote_answered (inl votes) item_id m = record m {
  items = map (with_votes item_id votes) m.items;
  voting_id = none;
}
vote_answered (inr message) item_id m = record m { voting_id = none; error = some message }
