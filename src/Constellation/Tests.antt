-- ===== src/Constellation/Tests.antt =====
-- The graph of a list at a concrete list.
use rank_verse.Base.{ℕ, ◌≡◌, refl, String, true, Option, none, some, List, [], ◌∷◌, arith, Ordering}
use rank_verse.Base.Sort.{sort, insert}
use rank_verse.Base.Text.{Text, codes}
use rank_verse.Constellation.{EntityRef, ListItem, ListEdge, ListDetail, people, shared_refs}
use rank_verse.Constellation.Link.{is_battleable, battle_opponents}
use rank_verse.Constellation.Link.Opponents.{count, count-battle_opponents}
use rank_verse.Constellation.Anchor.{initial, start, anchor, default_anchor, next_anchor}
use rank_verse.Constellation.Detail.{with_appended_item, without_item}
use rank_verse.Constellation.Detail.Shape.{IsWellFormed, without_item-IsWellFormed}
use rank_verse.Constellation.Detail.Rollback.{without_item-with_appended_item}

abbrev ref : String → EntityRef
ref id = record { id = id; slug = id; title = codes id; title_fa = none; entity_type = "person" }

abbrev film : String → ℕ → Option EntityRef → Option EntityRef → ListItem
film id position director lead = record {
  id = id;
  position = position;
  note = none;
  added_at = "";
  added_by_user_id = "u";
  like_count = 0;
  dislike_count = 0;
  is_own = true;
  can_remove = true;
  my_vote = none;
  entity = record {
    id = id;
    slug = id;
    title = codes id;
    entity_type = "movie";
    poster_path = none;
    title_fa = none;
  };
  year = none;
  director = director;
  lead_actor = lead;
  genres = none;
  overview = none;
}

-- The first and the third film have one director.
abbrev items : List ListItem
items =
    film "heat" 1 (some (ref "mann")) (some (ref "pacino"))
    ∷ film "ran" 2 (some (ref "kurosawa")) none
    ∷ film "ali" 3 (some (ref "mann")) (some (ref "smith"))
    ∷ []

abbrev fresh : ListItem
fresh = film "serpico" 4 none (some (ref "pacino"))

abbrev collate : Text → Text → Ordering
collate s t = Ordering.eq

abbrev blank : String → ℕ → ListEdge
blank name rank = record {
  from_rank = rank;
  kind = people;
  label_fa = none;
  value = some (codes name);
  targets = [];
}

abbrev detail : ListDetail
detail = record {
  items = items;
  edges = some (blank "a" 1 ∷ blank "b" 2 ∷ []);
  backlinks = some (
      record {
        rank = 3;
        target_position = 1;
        person_name = codes "mann";
        person_name_fa = none;
        person_slug = "mann";
      }
      ∷ []);
}

detail-IsWellFormed : IsWellFormed detail
detail-IsWellFormed = record {
  numbered = (refl, (refl, tt));
  joined = refl;
  reaching = ((omega arith, omega arith, omega arith), tt);
}

battle_opponents_first : battle_opponents items 0 ≡ 2 ∷ 1 ∷ []
unfolding battle_opponents sort insert shared_refs
battle_opponents_first = refl

count-battle_opponents_example : count 2 (battle_opponents items 0) ≡ 1
unfolding is_battleable
count-battle_opponents_example = count-battle_opponents items 0 2

without_item-IsWellFormed_example : IsWellFormed (without_item collate detail "ran")
without_item-IsWellFormed_example =
    without_item-IsWellFormed collate detail "ran" detail-IsWellFormed

without_item-with_appended_item_example :
    without_item collate (with_appended_item collate detail fresh) "serpico" ≡ detail
without_item-with_appended_item_example =
    without_item-with_appended_item collate detail fresh detail-IsWellFormed
      (refl, (refl, (refl, tt)))

last_anchor : default_anchor items ≡ 2
unfolding default_anchor rank_verse.Constellation.Anchor.has_opponents insert sort battle_opponents
last_anchor = refl

-- Started at the second film; the first is then taken out.
abbrev shorter : List ListItem
shorter = film "ran" 1 (some (ref "kurosawa")) none ∷ film "ali" 2 none none ∷ []
