-- ===== src/Constellation/Detail.antt =====
-- frontend/lib/list-constellation.ts: a list with an item appended or removed before the server has
-- answered (`withAppendedItem`, `withoutItem`).
pub mod Shape
pub mod Rollback
use rank_verse.Base.{
  ℕ, zero, suc, ◌+◌, ◌-◌, String, Bool, true, false, not, ◌||◌, ◌&&◌, Option, none, some, List, [],
  ◌∷◌, ◌++◌, map, str_eq, ltb, leb, ◌==◌, Ordering, length, get_elem?, if◌then◌else◌,
}
use rank_verse.Base.Text.{Text}
use rank_verse.Constellation.{ListItem, ListEdge, ListBacklink, ListDetail}
use rank_verse.Constellation.Edge.{edge_between, backlink_for}

-- `?? []`
abbrev pub or_empty {ℓ} : {A : Type ℓ} → Option (List A) → List A
or_empty none = []
or_empty (some xs) = xs

abbrev added {ℓ} : {A : Type ℓ} → List A → Option A → List A
added xs none = xs
added xs (some x) = xs ++ x ∷ []

-- `items.findIndex((i) => i.id === itemId)`; a negative index is `none`.
unfoldable pub find_index : String → List ListItem → Option ℕ
find_index id [] = none
find_index id (item ∷ items) =
    if str_eq item.id id
    then some 0
    else (elim (find_index id items) [ none ↦ none | some i ↦ some (suc i) ])

-- `filter((_, i) => i !== removed)`
abbrev pub remove_at {ℓ} : {A : Type ℓ} → ℕ → List A → List A
remove_at i [] = []
remove_at zero (x ∷ xs) = xs
remove_at (suc i) (x ∷ xs) = x ∷ remove_at i xs

abbrev pub shift : ℕ → ℕ → ℕ
shift removed_rank rank = if ltb removed_rank rank then rank - 1 else rank

abbrev pub touches : ℕ → ListBacklink → Bool
touches removed_rank b = b.rank == removed_rank || b.target_position == removed_rank

abbrev pub shifted : ℕ → ListBacklink → ListBacklink
shifted removed_rank b = record b {
  rank = shift removed_rank b.rank;
  target_position = shift removed_rank b.target_position;
}

-- The two filters and the map over the backlinks, link by link.
unfoldable pub keep_backlinks : ℕ → List ListBacklink → List ListBacklink
keep_backlinks removed_rank [] = []
keep_backlinks removed_rank (b ∷ bs) =
    let rest = keep_backlinks removed_rank bs in
    let b' = shifted removed_rank b in
    if touches removed_rank b
    then rest
    else if ltb (b'.target_position + 1) b'.rank
    then b' ∷ rest
    else rest

-- `i < removed - 1 ? old[i] : i >= removed ? old[i + 1] : undefined`
abbrev pub kept_edge : List ListEdge → ℕ → ℕ → Option ListEdge
kept_edge old removed i =
    if ltb (i + 1) removed
    then get_elem? old i
    else if leb removed i
    then get_elem? old (i + 1)
    else none

module _ (locale_compare : Text → Text → Ordering) where
  -- The edge that leads to an appended item.
  abbrev last_edge : List ListItem → ListItem → ℕ → List ListItem → List ListEdge
  last_edge items item zero all = []
  last_edge items item (suc i) all = elim (get_elem? items i) [
    | none ↦ []
    | some before ↦ edge_between locale_compare before item (suc i) all ∷ []
  ]

  unfoldable pub with_appended_item : ListDetail → ListItem → ListDetail
  with_appended_item detail item =
      let items = detail.items ++ item ∷ [] in
      let index = length detail.items in
      record detail {
        items = items;
        edges = some (or_empty detail.edges ++ last_edge detail.items item index items);
        backlinks = some (added (or_empty detail.backlinks) (backlink_for items index));
      }

  abbrev relinked : Option ListEdge → ListItem → ListItem → ℕ → List ListItem → ListEdge
  relinked none a b i all = edge_between locale_compare a b (i + 1) all
  relinked (some e) a b i all = record e { from_rank = i + 1 }

  -- The loop over the pairs of neighbours, from the pair at `i` on.
  unfoldable pub relink : List ListItem → List ListEdge → ℕ → ℕ → List ListItem → List ListEdge
  relink all old removed i [] = []
  relink all old removed i (a ∷ []) = []
  relink all old removed i (a ∷ b ∷ items) =
      relinked (kept_edge old removed i) a b i all ∷ relink all old removed (i + 1) (b ∷ items)

  unfoldable pub without_item : ListDetail → String → ListDetail
  unfolding find_index relink keep_backlinks
  without_item detail item_id = elim (find_index item_id detail.items) [
    | none ↦ detail
    | some removed ↦
        let items = remove_at removed detail.items in
        record detail {
          items = items;
          edges = some (relink items (or_empty detail.edges) removed 0 items);
          backlinks = some (keep_backlinks (removed + 1) (or_empty detail.backlinks));
        }
  ]
