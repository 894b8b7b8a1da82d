-- ===== src/Constellation/Edge.antt =====
-- frontend/lib/list-constellation.ts: the link between neighbours (`edgeBetween`) and the link back
-- to an earlier item (`backlinkFor`).
pub mod Laws
use rank_verse.Base.{
  ℕ, suc, ◌+◌, String, Bool, true, false, ◌||◌, Option, none, some, List, [], ◌∷◌, ◌++◌, map,
  str_eq, ltb, compare, Ordering, or_else, not_after, take, get_elem?, if◌then◌else◌,
}
use rank_verse.Base.Assoc
use rank_verse.Base.Assoc.{Assoc}
use rank_verse.Base.Sort
use rank_verse.Base.Text.{Text, codes, join}
use rank_verse.Constellation.{
  EntityRef, ListItem, EdgeKind, people, genre, unlinked, ListEdge, ListBacklink, genres_of, has_id,
  same_ref, shared_refs, fa_or_title,
}

abbrev pub max_edge_genres : ℕ
max_edge_genres = 2

abbrev pub or_nought : Option ℕ → ℕ
or_nought none = 0
or_nought (some n) = n

-- `freq.set(g.id, (freq.get(g.id) ?? 0) + 1)`, over the genres of one item and of all.
unfoldable pub count_genres : List EntityRef → Assoc ℕ → Assoc ℕ
count_genres [] freq = freq
count_genres (g ∷ gs) freq =
    count_genres gs (Assoc.set g.id (or_nought (Assoc.get g.id freq) + 1) freq)

unfoldable pub genre_freq : List ListItem → Assoc ℕ → Assoc ℕ
unfolding count_genres
genre_freq [] freq = freq
genre_freq (item ∷ items) freq = genre_freq items (count_genres (genres_of item) freq)

-- An edge that two persons with one id make.
abbrev people_edge : ℕ → Text → Option EntityRef → ListEdge
people_edge from_rank label none = record {
  from_rank = from_rank;
  kind = people;
  label_fa = some label;
  value = none;
  targets = [];
}
people_edge from_rank label (some p) = record {
  from_rank = from_rank;
  kind = people;
  label_fa = some label;
  value = some (fa_or_title p);
  targets = p ∷ [];
}

abbrev is_series : ListItem → Bool
is_series item = str_eq item.entity.entity_type "tv_series"

abbrev director_label : Bool → Text
director_label true =
    codes "\u{633}\u{627}\u{632}\u{646}\u{62f}\u{647} \u{645}\u{634}\u{62a}\u{631}\u{6a9}"
director_label false =
    codes
      "\u{6a9}\u{627}\u{631}\u{6af}\u{631}\u{62f}\u{627}\u{646} \u{645}\u{634}\u{62a}\u{631}\u{6a9}"

-- `localeCompare`, of the runtime's collation.
module _ (locale_compare : Text → Text → Ordering) where
  -- Most common across the list first, then by name.
  abbrev pub more_common : Assoc ℕ → EntityRef → EntityRef → Bool
  more_common freq x y = not_after (
      or_else (compare (or_nought (Assoc.get y.id freq)) (or_nought (Assoc.get x.id freq)))
        (locale_compare x.title y.title))

  unfoldable pub top_genres : List EntityRef → List ListItem → List EntityRef
  unfolding genre_freq
  top_genres shared items =
      take max_edge_genres (Sort.sort (more_common (genre_freq items [])) shared)

  abbrev genre_edge : ℕ → List EntityRef → List ListItem → ListEdge
  genre_edge from_rank [] items = record {
    from_rank = from_rank;
    kind = unlinked;
    label_fa = none;
    value = none;
    targets = [];
  }
  genre_edge from_rank (g ∷ gs) items =
      let top = top_genres (g ∷ gs) items in
      record {
        from_rank = from_rank;
        kind = genre;
        label_fa = some (codes "\u{698}\u{627}\u{646}\u{631} \u{645}\u{634}\u{62a}\u{631}\u{6a9}");
        value = some (join (codes " · ") (map (λ (r : EntityRef). r.title) top));
        targets = top;
      }

  unfoldable pub edge_between : ListItem → ListItem → ℕ → List ListItem → ListEdge
  edge_between a b from_rank items =
      if same_ref a.director b.director
      then people_edge from_rank (director_label (is_series a || is_series b)) a.director
      else if same_ref a.lead_actor b.lead_actor
      then people_edge from_rank
          (codes "\u{628}\u{627}\u{632}\u{6cc}\u{6af}\u{631} \u{645}\u{634}\u{62a}\u{631}\u{6a9}")
          a.lead_actor
      else genre_edge from_rank (shared_refs (genres_of a) (genres_of b)) items

abbrev present : Option EntityRef → List EntityRef
present none = []
present (some p) = p ∷ []

-- `people(item)`
abbrev pub people_of : ListItem → List EntityRef
people_of item = present item.director ++ present item.lead_actor

-- `mine.find((p) => theirs.has(p.id))`
unfoldable pub find_shared : List EntityRef → List EntityRef → Option EntityRef
unfolding has_id
find_shared [] theirs = none
find_shared (p ∷ mine) theirs = if has_id p.id theirs then some p else find_shared mine theirs

-- The loop of `backlinkFor` from item `j` on; it stops before the item next to `index`.
unfoldable pub backlink_from : List EntityRef → ℕ → ℕ → List ListItem → Option ListBacklink
backlink_from mine index j [] = none
backlink_from mine index j (item ∷ items) =
    let later = backlink_from mine index (j + 1) items in
    if ltb (j + 1) index
    then (elim (find_shared mine (people_of item)) [
      | none ↦ later
      | some person ↦ some (record {
        rank = index + 1;
        target_position = j + 1;
        person_name = person.title;
        person_name_fa = person.title_fa;
        person_slug = person.slug;
      })
    ])
    else none

unfoldable pub backlink_for : List ListItem → ℕ → Option ListBacklink
unfolding backlink_from find_shared
backlink_for items index = elim (get_elem? items index) [
  | none ↦ none
  | some item ↦ backlink_from (people_of item) index 0 items
]
