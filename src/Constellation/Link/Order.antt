-- ===== src/Constellation/Link/Order.antt =====
-- The order in which an item meets the others (frontend/lib/list-constellation.ts,
-- `battleOpponents`).
use rank_verse.Base.{
  ℕ, ◌+◌, ◌≡◌, refl, Bool, true, false, none, some, List, [], ◌∷◌, arith, ◌==◌, leb, compare,
  not_after, or_else, map, length, drop, drop-add_one, get_elem?, get_elem?-drop, Bool-cases, All,
  inl, inr,
}
use rank_verse.Base.Sort
use rank_verse.Base.Sort.{IsSorted, IsPreorder}
use rank_verse.Constellation.{ListItem}
use rank_verse.Constellation.Link.{
  battle_link, is_battleable, Opponent, candidates, meets_first, battle_opponents,
}

-- The tier of item `i` as seen from the anchor.
abbrev pub tier_at : ListItem → List ListItem → ℕ → ℕ
tier_at a items i = elim (get_elem? items i) [ none ↦ 3 | some item ↦ (battle_link a item).tier ]

-- The order of the meetings, on indexes: up the list from the last item, else by tier, then rank.
abbrev pub meets_before : Bool → ListItem → List ListItem → ℕ → ℕ → Bool
meets_before true a items i j = leb j i
meets_before false a items i j =
    not_after (or_else (compare (tier_at a items i) (tier_at a items j)) (compare i j))

abbrev IsTiered : ListItem → List ListItem → List Opponent → Type 0
IsTiered a items os = All (λ (o : Opponent). o.tier ≡ tier_at a items o.index) os

candidates-IsTiered :
    (a : ListItem) (anchor i : ℕ) (all items : List ListItem)
    → drop i all ≡ items
    → IsTiered a all (candidates a anchor i items)
unfolding candidates
candidates-IsTiered a anchor i all [] h = tt
candidates-IsTiered a anchor i all (item ∷ items) h = ground (
  arith,
  get_elem?-drop i all h,
  candidates-IsTiered a anchor (i + 1) all items (drop-add_one i all h),
)

insert-IsTiered :
    (le : Opponent → Opponent → Bool) (a : ListItem) (items : List ListItem) (o : Opponent)
    (os : List Opponent)
    → IsTiered a items (o ∷ os)
    → IsTiered a items (Sort.insert le o os)
unfolding Sort.insert
insert-IsTiered le a items o [] h = h
insert-IsTiered le a items o (p ∷ os) h = ground (arith, insert-IsTiered le a items o os)

sort-IsTiered :
    (le : Opponent → Opponent → Bool) (a : ListItem) (items : List ListItem) (os : List Opponent)
    → IsTiered a items os
    → IsTiered a items (Sort.sort le os)
unfolding Sort.sort
sort-IsTiered le a items [] h = tt
sort-IsTiered le a items (o ∷ os) h =
    insert-IsTiered le a items o (Sort.sort le os) (h.0, sort-IsTiered le a items os h.1)

meets_first-total :
    (last : Bool) (x y : Opponent) → meets_first last x y ≡ false → meets_first last y x ≡ true
meets_first-total true x y h = ground arith
meets_first-total false x y h = ground arith

meets_first_trans :
    (last : Bool) (x y z : Opponent)
    → meets_first last x y ≡ true
    → meets_first last y z ≡ true
    → meets_first last x z ≡ true
meets_first_trans true x y z h k = ground arith
meets_first_trans false x y z h k = ground arith

module _ (last : Bool) (a : ListItem) (items : List ListItem) where
  All-meets_before :
      (o : Opponent) (os : List Opponent)
      → o.tier ≡ tier_at a items o.index
      → IsTiered a items os
      → All (λ p. meets_first last o p ≡ true) os
      → All (λ j. meets_before last a items o.index j ≡ true) (map (λ (p : Opponent). p.index) os)
  All-meets_before o [] e t h = tt
  All-meets_before o (p ∷ os) e t h = (same last h.0, All-meets_before o os e t.1 h.1)
    where
      same : (b : Bool) → meets_first b o p ≡ true → meets_before b a items o.index p.index ≡ true
      same true k = k
      same false k = rw (← e, ← t.0) k

  IsSorted-map :
      (os : List Opponent)
      → IsTiered a items os
      → IsSorted (meets_first last) os
      → IsSorted (meets_before last a items) (map (λ (p : Opponent). p.index) os)
  IsSorted-map [] t h = tt
  IsSorted-map (o ∷ os) t h = (All-meets_before o os t.0 t.1 h.0, IsSorted-map os t.1 h.1)

-- The last item meets the others from the one above it upwards; any other item meets the closest
-- first, and those equally close in the list's order.
battle_opponents-IsSorted :
    (items : List ListItem) (anchor : ℕ) {a : ListItem}
    → get_elem? items anchor ≡ some a
    → IsSorted (meets_before (anchor + 1 == length items) a items) (battle_opponents items anchor)
unfolding battle_opponents
battle_opponents-IsSorted items anchor {a} e =
    let last = anchor + 1 == length items in
    let os = candidates a anchor 0 items in
    let order : IsPreorder (meets_first last) = record {
      total = meets_first-total last;
      trans = meets_first_trans last;
    } in
    rw (e, battle_opponents)
      (elim (Bool-cases (is_battleable a.entity.entity_type)) [
        | inl b ↦ rw b (
            IsSorted-map last a items (Sort.sort (meets_first last) os)
              (sort-IsTiered (meets_first last) a items os
                (candidates-IsTiered a anchor 0 items items refl))
              (Sort.sort-IsSorted (meets_first last) order os))
        | inr b ↦ rw b tt
      ])
