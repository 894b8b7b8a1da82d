-- ===== src/Constellation/Detail/Shape.antt =====
-- The shape of a list's graph (frontend/lib/list-constellation.ts): one edge for each pair of
-- neighbours, numbered in order, and backlinks that reach back past a neighbour.
use rank_verse.Base.{
  ℕ, zero, suc, ◌+◌, ◌-◌, ◌≤◌, ◌<◌, ◌≡◌, refl, inl, inr, String, Option, none, some, List, [], ◌∷◌,
  ◌++◌, arith, Ordering, length, length-append, get_elem?, Option-cases, All,
}
use rank_verse.Base.Text.{Text}
use rank_verse.Constellation.{ListItem, ListEdge, ListBacklink, ListDetail}
use rank_verse.Constellation.Edge.{edge_between, backlink_for}
use rank_verse.Constellation.Edge.Laws.{edge_between-from_rank, backlink_for-rank}
use rank_verse.Constellation.Detail.{
  added, find_index, remove_at, keep_backlinks, last_edge, with_appended_item, relinked, kept_edge,
  relink, without_item, or_empty,
}

-- The edges are numbered from `i + 1` on.
abbrev pub AreNumbered : ℕ → List ListEdge → Type 0
AreNumbered i [] = Unit
AreNumbered i (e ∷ es) = (e.from_rank ≡ i + 1) × AreNumbered (i + 1) es

-- Both ends are ranks of a list of `n` items, and no neighbours.
abbrev pub ReachesBack : ℕ → ListBacklink → Type 0
ReachesBack n b = (1 ≤ b.target_position) × (b.target_position + 1 < b.rank) × (b.rank ≤ n)

pub record IsWellFormed (detail : ListDetail) : Type 0 where
  pub numbered : AreNumbered 0 (or_empty detail.edges)
  pub joined : length (or_empty detail.edges) ≡ length detail.items - 1
  pub reaching : All (ReachesBack (length detail.items)) (or_empty detail.backlinks)

AreNumbered-append :
    (i : ℕ) (es : List ListEdge) (e : ListEdge)
    → AreNumbered i es
    → e.from_rank ≡ i + length es + 1
    → AreNumbered i (es ++ e ∷ [])
AreNumbered-append i [] e h k = (omega arith, tt)
AreNumbered-append i (d ∷ es) e h k = (h.0, AreNumbered-append (i + 1) es e h.1 (omega arith))

All-ReachesBack-weaken :
    (n m : ℕ) (bs : List ListBacklink) → n ≤ m → All (ReachesBack n) bs → All (ReachesBack m) bs
All-ReachesBack-weaken n m [] h k = tt
All-ReachesBack-weaken n m (b ∷ bs) h k = (omega arith, All-ReachesBack-weaken n m bs h k.1)

All-added :
    (P : ListBacklink → Type 0) (bs : List ListBacklink) (b : Option ListBacklink)
    → All P bs
    → ((x : ListBacklink) → b ≡ some x → P x)
    → All P (added bs b)
All-added P bs none h k = h
All-added P [] (some b) h k = (k b refl, tt)
All-added P (c ∷ bs) (some b) h k = (h.0, All-added P bs (some b) h.1 k)

get_elem?-last :
    (items : List ListItem) (i : ℕ)
    → length items ≡ suc i
    → (x : ListItem) × (get_elem? items i ≡ some x)
get_elem?-last [] i h = absurd (omega arith)
get_elem?-last (x ∷ items) zero h = (x, refl)
get_elem?-last (x ∷ items) (suc i) h = get_elem?-last items i (omega arith)

module _ (locale_compare : Text → Text → Ordering) where
  last_edge-numbered :
      (items : List ListItem) (item : ListItem) (n : ℕ) (all : List ListItem) (es : List ListEdge)
      → length items ≡ n
      → AreNumbered 0 es
      → length es ≡ n - 1
      → let all_edges = es ++ last_edge locale_compare items item n all in
        AreNumbered 0 all_edges × (length all_edges ≡ n)
  last_edge-numbered items item zero all [] h a l = (tt, refl)
  last_edge-numbered items item zero all (e ∷ es) h a l = absurd (omega arith)
  last_edge-numbered items item (suc i) all es h a l =
      let (before, at) = get_elem?-last items i h in
      let e = edge_between locale_compare before item (suc i) all in
      let from = edge_between-from_rank locale_compare before item (suc i) all in
      rw (at, last_edge)
        (AreNumbered-append 0 es e a (omega arith), omega (arith, length-append {0} es (e ∷ [])))

  -- Appending an item keeps the graph's shape.
  with_appended_item-IsWellFormed :
      (detail : ListDetail) (item : ListItem)
      → IsWellFormed detail
      → IsWellFormed (with_appended_item locale_compare detail item)
  unfolding with_appended_item
  with_appended_item-IsWellFormed detail item w =
      let n = length detail.items in
      let items = detail.items ++ item ∷ [] in
      let size = length-append {0} detail.items (item ∷ []) in
      let (numbered, joined) =
        last_edge-numbered detail.items item n items (or_empty detail.edges) refl w.numbered
          w.joined in
      record {
        numbered = numbered;
        joined = omega (arith, joined, size);
        reaching =
            All-added (ReachesBack (length items)) (or_empty detail.backlinks)
              (backlink_for items n)
              (All-ReachesBack-weaken n (length items) _ (omega (arith, size)) w.reaching)
              (λ b e. omega (arith, backlink_for-rank items n b e, size));
      }

  relinked-from_rank :
      (kept : Option ListEdge) (a b : ListItem) (i : ℕ) (all : List ListItem)
      → (relinked locale_compare kept a b i all).from_rank ≡ i + 1
  relinked-from_rank none a b i all = edge_between-from_rank locale_compare a b (i + 1) all
  relinked-from_rank (some e) a b i all = refl

  relink-AreNumbered :
      (all : List ListItem) (old : List ListEdge) (removed i : ℕ) (items : List ListItem)
      → AreNumbered i (relink locale_compare all old removed i items)
  unfolding relink
  relink-AreNumbered all old removed i [] = tt
  relink-AreNumbered all old removed i (a ∷ []) = tt
  relink-AreNumbered all old removed i (a ∷ b ∷ items) = (
    relinked-from_rank (kept_edge old removed i) a b i all,
    relink-AreNumbered all old removed (i + 1) (b ∷ items),
  )

  length-relink :
      (all : List ListItem) (old : List ListEdge) (removed i : ℕ) (items : List ListItem)
      → length (relink locale_compare all old removed i items) ≡ length items - 1
  unfolding relink
  length-relink all old removed i [] = refl
  length-relink all old removed i (a ∷ []) = refl
  length-relink all old removed i (a ∷ b ∷ items) =
      omega (arith, length-relink all old removed (i + 1) (b ∷ items))

keep_backlinks-reaching :
    (n removed : ℕ) (bs : List ListBacklink)
    → removed < n
    → All (ReachesBack n) bs
    → All (ReachesBack (n - 1)) (keep_backlinks (removed + 1) bs)
unfolding keep_backlinks
keep_backlinks-reaching n removed [] h k = tt
keep_backlinks-reaching n removed (b ∷ bs) h k =
    ground (arith, keep_backlinks-reaching n removed bs h k.1)

find_index-lt :
    (id : String) (items : List ListItem) (i : ℕ) → find_index id items ≡ some i → i < length items
unfolding find_index
find_index-lt id [] i h = cc
find_index-lt id (item ∷ items) zero h = omega arith
find_index-lt id (item ∷ items) (suc i) h = ground (arith, find_index-lt id items i)

pub length-remove_at {ℓ} :
    {A : Type ℓ} (i : ℕ) (xs : List A) → i < length xs → length (remove_at i xs) ≡ length xs - 1
length-remove_at i [] h = refl
length-remove_at zero (x ∷ xs) h = omega arith
length-remove_at (suc i) (x ∷ xs) h = omega (arith, length-remove_at i xs)

-- Removing an item, whichever it is, keeps the graph's shape; so does an id that is not there.
pub without_item-IsWellFormed :
    (locale_compare : Text → Text → Ordering) (detail : ListDetail) (item_id : String)
    → IsWellFormed detail
    → IsWellFormed (without_item locale_compare detail item_id)
unfolding without_item
without_item-IsWellFormed locale_compare detail item_id w =
    elim (Option-cases (find_index item_id detail.items)) [
      | inl e ↦ rw (e, without_item) w
      | inr (removed, e) ↦
          let lt = find_index-lt item_id detail.items removed e in
          let size = length-remove_at removed detail.items lt in
          let items = remove_at removed detail.items in
          let old = or_empty detail.edges in
          rw (e, without_item)
            (record {
              numbered = relink-AreNumbered locale_compare items old removed 0 items;
              joined = length-relink locale_compare items old removed 0 items;
              reaching = rw size (
                  keep_backlinks-reaching (length detail.items) removed (or_empty detail.backlinks)
                    lt w.reaching);
            })
    ]
