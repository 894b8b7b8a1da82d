-- ===== src/ListPage/Adding.antt =====
-- frontend/components/list-detail/AddItemNode.tsx: candidates that are ticked, shown on the spine at
-- once, then saved one by one; a failed save takes its item back.
pub mod Saves
pub mod Ticks
use rank_verse.Base.{
  ℕ, zero, suc, ◌+◌, Bool, true, false, not, String, Option, none, some, List, [], ◌∷◌, ◌++◌, max,
  map, str_eq, ◌==◌, length, if◌then◌else◌, Ordering,
}
use rank_verse.Base.Text.{Text}
use rank_verse.Base.Keep.{keep, some_of}
use rank_verse.Constellation.{EntityMini, EntityRef, ListItem, ListDetail}
use rank_verse.Constellation.Detail.{with_appended_item, without_item}

pub record ListCandidate : Type 0 where
  pub entity : EntityMini
  pub year : Option ℕ
  pub director : Option EntityRef
  pub lead_actor : Option EntityRef
  pub genres : Option (List EntityRef)
  pub overview : Option String

-- A template's literal before what follows it.
abbrev pub prepend : String → String → String
prepend String.[] s = s
prepend (String.◌∷◌ c p) s = String.◌∷◌ c (prepend p s)

abbrev pub temp_id : String → String
temp_id id = prepend "temp-" id

-- `Math.max(0, ...items.map((i) => i.position))`
unfoldable pub max_position : List ListItem → ℕ
max_position [] = 0
max_position (i ∷ items) = max i.position (max_position items)

unfoldable pub optimistic_item : String → ListCandidate → List ListItem → ListItem
unfolding max_position
optimistic_item now candidate items = record {
  id = temp_id candidate.entity.id;
  position = max_position items + 1;
  note = none;
  added_at = now;
  added_by_user_id = "";
  like_count = 0;
  dislike_count = 0;
  is_own = true;
  can_remove = true;
  my_vote = none;
  entity = candidate.entity;
  year = candidate.year;
  director = candidate.director;
  lead_actor = candidate.lead_actor;
  genres = candidate.genres;
  overview = candidate.overview;
}

abbrev pub is_candidate : String → ListCandidate → Bool
is_candidate id c = str_eq c.entity.id id

-- The ticks, a `Map` in the order of insertion.
unfoldable pub toggle : ListCandidate → List ListCandidate → List ListCandidate
toggle candidate selected =
    if some_of (is_candidate candidate.entity.id) selected
    then keep (λ c. not (is_candidate candidate.entity.id c)) selected
    else selected ++ candidate ∷ []

unfoldable pub temps : String → List ListCandidate → List ListItem → List ListItem
unfolding optimistic_item
temps now [] base = []
temps now (c ∷ chosen) base =
    let temp = optimistic_item now c base in temp ∷ temps now chosen (base ++ temp ∷ [])

-- What the server gives an item that it saves.
pub record Saved : Type 0 where
  pub id : String
  pub position : ℕ

abbrev pub renamed : String → Saved → ListItem → ListItem
renamed temp saved i =
    if str_eq i.id temp then record i { id = saved.id; position = saved.position } else i

pub data Notice : Type 0 where
  all_failed : Notice
  some_failed : ℕ → Notice

unfoldable pub notice : ℕ → ℕ → Option Notice
notice zero chosen = none
notice (suc n) chosen = if suc n == chosen then some all_failed else some (some_failed (suc n))

-- The component's ticks and message.
pub record AddNode : Type 0 where
  pub selected : List ListCandidate
  pub error : Option Notice

module _ (locale_compare : Text → Text → Ordering) where
  unfoldable pub show_all : List ListItem → ListDetail → ListDetail
  show_all [] detail = detail
  show_all (t ∷ ts) detail = show_all ts (with_appended_item locale_compare detail t)

  abbrev pub settle : ListItem → Option Saved → ListDetail → ListDetail
  settle temp none detail = without_item locale_compare detail temp.id
  settle temp (some saved) detail = record detail {
    items = map (renamed temp.id saved) detail.items;
  }

module _ (answers : ListCandidate → Option Saved) where
  unfoldable pub count_failed : List ListCandidate → ℕ
  count_failed [] = 0
  count_failed (c ∷ chosen) = elim (answers c) [
    | none ↦ suc (count_failed chosen)
    | some saved ↦ count_failed chosen
  ]

-- `answers` is the server's answer to each save, `none` where it failed.
module _ (locale_compare : Text → Text → Ordering) (answers : ListCandidate → Option Saved) where
  -- The loop over `chosen.entries()` with the temps beside them.
  unfoldable pub save_all : List ListCandidate → List ListItem → ListDetail → ListDetail
  save_all (c ∷ chosen) (t ∷ ts) detail =
      save_all chosen ts (settle locale_compare t (answers c) detail)
  save_all [] ts detail = detail
  save_all (c ∷ chosen) [] detail = detail

  -- `addSelected`, to the end of its loop; an empty token is none.
  unfoldable pub add_selected : Bool → String → AddNode → ListDetail → AddNode × ListDetail
  unfolding temps show_all save_all count_failed notice
  add_selected false now node detail = (node, detail)
  add_selected true now node detail = elim node.selected [
    | [] ↦ (node, detail)
    | c ∷ cs ↦
        let new = temps now node.selected detail.items in
        (
          record {
            selected = [];
            error = notice (count_failed answers node.selected) (length node.selected);
          },
          save_all node.selected new (show_all locale_compare new detail),
        )
  ]
