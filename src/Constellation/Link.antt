-- ===== src/Constellation/Link.antt =====
-- frontend/lib/list-constellation.ts: why two items battle (`battleLink`) and whom an item meets
-- (`battleOpponents`).
pub mod Symmetry
pub mod Opponents
pub mod Order
use rank_verse.Base.{
  ℕ, suc, ◌+◌, ◌-◌, String, Bool, true, false, not, ◌&&◌, ◌||◌, Option, none, some, List, [], ◌∷◌,
  ◌++◌, map, str_eq, ◌==◌, compare, Ordering, or_else, not_after, length, get_elem?, if◌then◌else◌,
}
use rank_verse.Base.Sort
use rank_verse.Base.Text.{Text, codes, join}
use rank_verse.Labels.Genre.{genre_label}
use rank_verse.Constellation.{
  EntityRef, ListItem, EdgeKind, people, genre, unlinked, genres_of, same_ref, shared_refs,
  fa_or_title,
}

pub record BattleLink : Type 0 where
  pub tier : ℕ
  pub kind : EdgeKind
  pub reason : Text

unfoldable pub is_rateable : String → Bool
is_rateable t = str_eq t "movie" || str_eq t "tv_series"

unfoldable pub is_battleable : String → Bool
is_battleable t = str_eq t "movie" || str_eq t "tv_series" || str_eq t "person"

-- The person's name in a reason; the call's guard says that there is one.
abbrev name_of : Option EntityRef → Text
name_of none = []
name_of (some p) = fa_or_title p

abbrev genre_reason : List EntityRef → Text
genre_reason shared =
    codes "\u{698}\u{627}\u{646}\u{631} \u{645}\u{634}\u{62a}\u{631}\u{6a9}: "
    ++ join (codes "، ") (map (λ (g : EntityRef). genre_label g.title) shared)

-- The last two returns of `battleLink`, by the shared genres.
abbrev link_by_genres : List EntityRef → BattleLink
link_by_genres [] = record {
  tier = 3;
  kind = unlinked;
  reason =
      codes
        "\u{628}\u{62f}\u{648}\u{646} \u{627}\u{62a}\u{635}\u{627}\u{644} \u{645}\u{633}\u{62a}\u{642}\u{6cc}\u{645}";
}
link_by_genres (g ∷ gs) = record { tier = 2; kind = genre; reason = genre_reason (g ∷ gs) }

unfoldable pub battle_link : ListItem → ListItem → BattleLink
battle_link a b =
    if same_ref a.director b.director
    then record {
      tier = 0;
      kind = people;
      reason =
          codes "\u{647}\u{631} \u{62f}\u{648} \u{633}\u{627}\u{62e}\u{62a}\u{647} "
          ++ name_of a.director;
    }
    else if same_ref a.lead_actor b.lead_actor
    then record {
      tier = 1;
      kind = people;
      reason = name_of a.lead_actor ++ codes " \u{62f}\u{631} \u{647}\u{631} \u{62f}\u{648}";
    }
    else link_by_genres (shared_refs (genres_of a) (genres_of b))

pub record Opponent : Type 0 where
  pub index : ℕ
  pub tier : ℕ

-- The `flatMap`: the items from index `i` on that may meet the anchor.
unfoldable pub candidates : ListItem → ℕ → ℕ → List ListItem → List Opponent
unfolding battle_link
candidates a anchor i [] = []
candidates a anchor i (item ∷ items) =
    let rest = candidates a anchor (i + 1) items in
    if i == anchor || not (str_eq item.entity.entity_type a.entity.entity_type)
    then rest
    else record { index = i; tier = (battle_link a item).tier } ∷ rest

-- The last item meets the others upwards, any other the closest first.
abbrev pub meets_first : Bool → Opponent → Opponent → Bool
meets_first true x y = not_after (compare y.index x.index)
meets_first false x y = not_after (or_else (compare x.tier y.tier) (compare x.index y.index))

unfoldable pub battle_opponents : List ListItem → ℕ → List ℕ
unfolding candidates is_battleable
battle_opponents items anchor = elim (get_elem? items anchor) [
  | none ↦ []
  | some a ↦
      if is_battleable a.entity.entity_type
      then map (λ (o : Opponent). o.index)
          (Sort.sort (meets_first (anchor + 1 == length items)) (candidates a anchor 0 items))
      else []
]
