-- ===== src/Constellation/Edge/Laws.antt =====
-- What edges and backlinks say (frontend/lib/list-constellation.ts, `edgeBetween`, `backlinkFor`).
use rank_verse.Base.{
  ℕ, zero, suc, ◌+◌, ◌≤◌, ◌<◌, ◌≡◌, refl, inl, inr, Option, none, some, List, [], ◌∷◌, arith, ltb,
  Ordering, get_elem?, Bool-cases, Option-cases,
}
use mathlib.Core.Option.{some-injective}
use mathlib.Core.Path.{subst}
use rank_verse.Base.Text.{Text}
use rank_verse.Constellation.{EntityRef, ListItem, ListBacklink}
use rank_verse.Constellation.Link.{battle_link}
use rank_verse.Constellation.Edge.{
  edge_between, people_of, find_shared, backlink_from, backlink_for,
}

module _ (locale_compare : Text → Text → Ordering) where
  pub edge_between-from_rank :
      (a b : ListItem) (r : ℕ) (items : List ListItem)
      → (edge_between locale_compare a b r items).from_rank ≡ r
  unfolding edge_between
  edge_between-from_rank a b r items = ground arith

  -- The edge between two neighbours and the link that makes them battle are of one kind.
  edge_between-kind :
      (a b : ListItem) (r : ℕ) (items : List ListItem)
      → (edge_between locale_compare a b r items).kind ≡ (battle_link a b).kind
  unfolding edge_between battle_link
  edge_between-kind a b r items = ground arith

-- The backlink's target is an item that shares a person and is not next to the index; no item
-- before it shares one. `j` counts the items passed.
abbrev pub IsEarliest : List EntityRef → ℕ → ℕ → List ListItem → Option ListBacklink → Type 0
IsEarliest mine index j items none =
    (k : ℕ) (item : ListItem)
    → j + k + 1 < index
    → get_elem? items k ≡ some item
    → find_shared mine (people_of item) ≡ none
IsEarliest mine index j items (some b) =
    (k : ℕ) × (item : ListItem) × (person : EntityRef) × (get_elem? items k ≡ some item)
    × (find_shared mine (people_of item) ≡ some person)
    × (b.person_slug ≡ person.slug)
    × (b.rank ≡ index + 1)
    × (b.target_position ≡ j + k + 1)
    × (b.target_position + 1 < b.rank)
    × ((i : ℕ) (earlier : ListItem)
        → i < k
        → get_elem? items i ≡ some earlier
        → find_shared mine (people_of earlier) ≡ none)

pub backlink_from-rank :
    (mine : List EntityRef) (index j : ℕ) (items : List ListItem) (b : ListBacklink)
    → backlink_from mine index j items ≡ some b
    → (b.rank ≡ index + 1) × (1 ≤ b.target_position) × (b.target_position + 1 < b.rank)
unfolding backlink_from
backlink_from-rank mine index j [] b h = cc
backlink_from-rank mine index j (item ∷ items) b h =
    ground (arith, backlink_from-rank mine index (j + 1) items b)

pub backlink_for-rank :
    (items : List ListItem) (index : ℕ) (b : ListBacklink)
    → backlink_for items index ≡ some b
    → (b.rank ≡ index + 1) × (1 ≤ b.target_position) × (b.target_position + 1 < b.rank)
unfolding backlink_for
backlink_for-rank items index b h = elim (Option-cases (get_elem? items index)) [
  | inl e ↦ ground arith
  | inr (item, e) ↦ ground (arith, backlink_from-rank (people_of item) index 0 items b)
]

IsEarliest-later :
    (mine : List EntityRef) (index j : ℕ) (item : ListItem) (items : List ListItem)
    (b : Option ListBacklink)
    → find_shared mine (people_of item) ≡ none
    → IsEarliest mine index (j + 1) items b
    → IsEarliest mine index j (item ∷ items) b
IsEarliest-later mine index j item items none e h = go
  where
    go :
        (k : ℕ) (other : ListItem)
        → j + k + 1 < index
        → get_elem? (item ∷ items) k ≡ some other
        → find_shared mine (people_of other) ≡ none
    go zero other lt at =
        subst (λ x. find_shared mine (people_of x) ≡ none) (some-injective _ _ at) e
    go (suc k) other lt at = h k other (omega arith) at
IsEarliest-later mine index j item items (some b) e
      (k, other, person, at, found, slug, rank, target, gap, first) =
    (suc k, other, person, at, found, slug, rank, omega arith, gap, go)
  where
    go :
        (i : ℕ) (earlier : ListItem)
        → i < suc k
        → get_elem? (item ∷ items) i ≡ some earlier
        → find_shared mine (people_of earlier) ≡ none
    go zero earlier lt here =
        subst (λ x. find_shared mine (people_of x) ≡ none) (some-injective _ _ here) e
    go (suc i) earlier lt here = first i earlier (omega arith) here

backlink_from-IsEarliest :
    (mine : List EntityRef) (index j : ℕ) (items : List ListItem)
    → IsEarliest mine index j items (backlink_from mine index j items)
unfolding backlink_from
backlink_from-IsEarliest mine index j [] = λ k item h e. cc
backlink_from-IsEarliest mine index j (item ∷ items) = elim (Bool-cases (ltb (j + 1) index)) [
  | inr e ↦ rw (e, backlink_from) (λ k other h at. absurd (ground arith))
  | inl e ↦
      rw (e, backlink_from)
        (elim (Option-cases (find_shared mine (people_of item))) [
          | inl f ↦ rw f (
              IsEarliest-later mine index j item items _ f
                (backlink_from-IsEarliest mine index (j + 1) items))
          | inr (person, f) ↦ rw f (
            0,
            item,
            person,
            refl,
            f,
            refl,
            refl,
            omega arith,
            ground arith,
            λ i x h at. absurd (omega arith),
          )
        ])
]

-- Where an item has a backlink, it leads to the earliest item that shares a person with it and is
-- not its neighbour; where it has none, no such item shares one.
backlink_for-IsEarliest :
    (items : List ListItem) (index : ℕ) {item : ListItem}
    → get_elem? items index ≡ some item
    → IsEarliest (people_of item) index 0 items (backlink_for items index)
unfolding backlink_for
backlink_for-IsEarliest items index {item} e =
    rw (e, backlink_for) (backlink_from-IsEarliest (people_of item) index 0 items)
