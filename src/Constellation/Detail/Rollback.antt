-- ===== src/Constellation/Detail/Rollback.antt =====
-- An item added before the server has answered, and taken out again when it refuses
-- (frontend/components/list-detail/AddItemNode.tsx, by frontend/lib/list-constellation.ts).
use mathlib.Core.List.{append-nil}
use rank_verse.Base.{
  ℕ, ◌+◌, ◌-◌, ◌≡◌, refl, String, false, Option, none, some, List, [], ◌∷◌, ◌++◌, arith, str_eq,
  eq_iff, ap, Ordering, length, drop, get_elem?-drop, drop-add_one, All,
}
use rank_verse.Base.Text.{Text}
use rank_verse.Constellation.{ListItem, ListEdge, ListBacklink, ListDetail}
use rank_verse.Constellation.Edge.{backlink_for}
use rank_verse.Constellation.Edge.Laws.{backlink_for-rank}
use rank_verse.Constellation.Detail.{
  added, find_index, remove_at, keep_backlinks, last_edge, with_appended_item, relink, without_item,
  or_empty,
}
use rank_verse.Constellation.Detail.Shape.{AreNumbered, ReachesBack, IsWellFormed}

-- No item has this id.
abbrev pub IsNew : String → List ListItem → Type 0
IsNew id [] = Unit
IsNew id (item ∷ items) = (str_eq item.id id ≡ false) × IsNew id items

pub find_index-append :
    (items rest : List ListItem) (item : ListItem)
    → IsNew item.id items
    → find_index item.id (items ++ item ∷ rest) ≡ some (length items)
unfolding find_index
find_index-append [] rest item h = ground (arith, eq_iff item.id item.id)
find_index-append (x ∷ items) rest item h = ground (arith, find_index-append items rest item h.1)

pub remove_at-append :
    (items rest : List ListItem) (item : ListItem)
    → remove_at (length items) (items ++ item ∷ rest) ≡ items ++ rest
remove_at-append [] rest item = refl
remove_at-append (x ∷ items) rest item = ap (λ xs. x ∷ xs) (remove_at-append items rest item)

-- Backlinks of the old list are left as they are; one from the new item goes.
keep_backlinks_old :
    (n : ℕ) (bs : List ListBacklink) → All (ReachesBack n) bs → keep_backlinks (n + 1) bs ≡ bs
unfolding keep_backlinks
keep_backlinks_old n [] h = refl
keep_backlinks_old n (b ∷ bs) h = ground (arith, keep_backlinks_old n bs h.1)

keep_backlinks-added :
    (n : ℕ) (bs : List ListBacklink) (new : Option ListBacklink)
    → All (ReachesBack n) bs
    → ((b : ListBacklink) → new ≡ some b → b.rank ≡ n + 1)
    → keep_backlinks (n + 1) (added bs new) ≡ bs
unfolding keep_backlinks
keep_backlinks-added n bs none h k = keep_backlinks_old n bs h
keep_backlinks-added n [] (some b) h k = ground (arith, k b refl)
keep_backlinks-added n (c ∷ bs) (some b) h k =
    ground (arith, keep_backlinks-added n bs (some b) h.1 k)

module _ (locale_compare : Text → Text → Ordering) where
  -- Pairs that lie before the removed item keep their edges.
  relink_before :
      (all : List ListItem) (old : List ListEdge) (removed i : ℕ) (items : List ListItem)
      (es extra : List ListEdge)
      → i + length items ≡ removed
      → drop i old ≡ es ++ extra
      → length es ≡ length items - 1
      → AreNumbered i es
      → relink locale_compare all old removed i items ≡ es
  unfolding relink
  relink_before all old removed i [] [] extra n d l a = refl
  relink_before all old removed i [] (e ∷ es) extra n d l a = absurd (omega arith)
  relink_before all old removed i (x ∷ []) [] extra n d l a = refl
  relink_before all old removed i (x ∷ []) (e ∷ es) extra n d l a = absurd (omega arith)
  relink_before all old removed i (x ∷ y ∷ items) [] extra n d l a = absurd (omega arith)
  relink_before all old removed i (x ∷ y ∷ items) (e ∷ es) extra n d l a =
      let rest =
        relink_before all old removed (i + 1) (y ∷ items) es extra (omega arith)
          (drop-add_one i old d) (omega arith) a.1 in
      ground (arith, get_elem?-drop i old d, rest)

  -- In a list whose edges join each item to the next one, in their order, and whose backlinks lead
  -- back past a neighbour, within the list, and for an item whose id is new: taking out the item that was just appended gives
  -- back the items, the edges and the backlinks as they were (absent lists as empty ones).
  pub without_item-with_appended_item :
      (detail : ListDetail) (item : ListItem)
      → IsWellFormed detail
      → IsNew item.id detail.items
      → without_item locale_compare (with_appended_item locale_compare detail item) item.id
        ≡ record detail {
          edges = some (or_empty detail.edges);
          backlinks = some (or_empty detail.backlinks);
        }
  unfolding without_item with_appended_item
  without_item-with_appended_item detail item w new =
      let n = length detail.items in
      let items = detail.items ++ item ∷ [] in
      let old = or_empty detail.edges in
      let extra = last_edge locale_compare detail.items item n items in
      let gone = remove_at-append detail.items [] item in
      let found = find_index-append detail.items [] item new in
      let edges : relink locale_compare detail.items (old ++ extra) n 0 detail.items ≡ old =
        relink_before detail.items (old ++ extra) n 0 detail.items old extra (omega arith) refl
          w.joined w.numbered in
      let links =
        keep_backlinks-added n (or_empty detail.backlinks) (backlink_for items n) w.reaching
          (λ b e. (backlink_for-rank items n b e).0) in
      rw (found, without_item) (simp (gone, append-nil, edges, links))
