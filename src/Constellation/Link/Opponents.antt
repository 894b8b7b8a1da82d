-- ===== src/Constellation/Link/Opponents.antt =====
-- Whom an item meets in an in-page battle, and in which order
-- (frontend/lib/list-constellation.ts, `battleOpponents`).
use rank_verse.Base.{
  ℕ, zero, suc, ◌+◌, ◌<◌, ◌≡◌, refl, inl, inr, Bool, true, false, not, ◌&&◌, Option, none, some,
  List, [], ◌∷◌, arith, str_eq, ◌==◌, map, length, get_elem?, if◌then◌else◌, Option-cases,
}
use rank_verse.Base.Sort
use rank_verse.Base.Sort.{IsSorted, IsPreorder}
use rank_verse.Constellation.{ListItem}
use rank_verse.Constellation.Link.{
  is_battleable, Opponent, candidates, meets_first, battle_opponents,
}

abbrev pub count : ℕ → List ℕ → ℕ
count i [] = 0
count i (j ∷ js) = (if j == i then 1 else 0) + count i js

abbrev times : ℕ → List Opponent → ℕ
times i [] = 0
times i (o ∷ os) = (if o.index == i then 1 else 0) + times i os

abbrev as_number : Bool → ℕ
as_number true = 1
as_number false = 0

-- An item that may meet the anchor `a` at `anchor`: another one, of its type.
abbrev pub may_meet : ListItem → ℕ → ℕ → Option ListItem → Bool
may_meet a anchor i none = false
may_meet a anchor i (some item) =
    not (i == anchor) && str_eq item.entity.entity_type a.entity.entity_type

-- Item `i` meets the anchor in a battle of these items.
abbrev pub is_opponent : List ListItem → ℕ → ℕ → Bool
is_opponent items anchor i = elim (get_elem? items anchor) [
  | none ↦ false
  | some a ↦ is_battleable a.entity.entity_type && may_meet a anchor i (get_elem? items i)
]

times-before :
    (a : ListItem) (anchor i j : ℕ) (items : List ListItem)
    → j < i
    → times j (candidates a anchor i items) ≡ 0
unfolding candidates
times-before a anchor i j [] h = refl
times-before a anchor i j (item ∷ items) h = ground (arith, times-before a anchor (i + 1) j items)

times-candidates :
    (a : ListItem) (anchor i k j : ℕ) (items : List ListItem)
    → i + k ≡ j
    → times j (candidates a anchor i items) ≡ as_number (may_meet a anchor j (get_elem? items k))
unfolding candidates
times-candidates a anchor i k j [] e = refl
times-candidates a anchor i zero j (item ∷ items) e =
    ground (arith, times-before a anchor (i + 1) j items)
times-candidates a anchor i (suc k) j (item ∷ items) e =
    ground (arith, times-candidates a anchor (i + 1) k j items)

module _ (le : Opponent → Opponent → Bool) where
  times-insert :
      (i : ℕ) (o : Opponent) (os : List Opponent) → times i (Sort.insert le o os) ≡ times i (o ∷ os)
  unfolding Sort.insert
  times-insert i o [] = refl
  times-insert i o (p ∷ os) = ground (arith, times-insert i o os)

  times-sort : (i : ℕ) (os : List Opponent) → times i (Sort.sort le os) ≡ times i os
  unfolding Sort.sort
  times-sort i [] = refl
  times-sort i (o ∷ os) = omega (arith, times-insert i o (Sort.sort le os), times-sort i os)

count-map : (i : ℕ) (os : List Opponent) → count i (map (λ (o : Opponent). o.index) os) ≡ times i os
count-map i [] = refl
count-map i (o ∷ os) = omega (arith, count-map i os)

-- Every item of the anchor's type but the anchor is met exactly once, and nothing else is; nobody is
-- met where the anchor is out of range or of a type that does not battle.
pub count-battle_opponents :
    (items : List ListItem) (anchor i : ℕ)
    → count i (battle_opponents items anchor) ≡ (if is_opponent items anchor i then 1 else 0)
unfolding battle_opponents
count-battle_opponents items anchor i = elim (Option-cases (get_elem? items anchor)) [
  | inl e ↦ ground arith
  | inr (a, e) ↦
      let le = meets_first (anchor + 1 == length items) in
      let os = candidates a anchor 0 items in
      ground (
        arith,
        count-map i (Sort.sort le os),
        times-sort le i os,
        times-candidates a anchor 0 i i items,
      )
]
