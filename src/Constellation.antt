-- ===== src/Constellation.antt =====
-- frontend/lib/list-constellation.ts: the graph of a list's page. The records hold the fields of
-- frontend/lib/types.ts that the graph reads or writes; what else a value holds is copied unread.
pub mod Link
pub mod Edge
pub mod Detail
pub mod Anchor
mod Tests
use rank_verse.Base.{
  ℕ, String, Bool, true, false, Option, none, some, List, [], ◌∷◌, ◌||◌, str_eq, if◌then◌else◌,
}
use rank_verse.Base.Text.{Text}

pub record EntityRef : Type 0 where
  pub id : String
  pub slug : String
  pub title : Text
  pub title_fa : Option Text
  pub entity_type : String

pub record EntityMini : Type 0 where
  pub id : String
  pub slug : String
  pub title : Text
  pub entity_type : String
  pub poster_path : Option Text
  pub title_fa : Option Text

-- An absent person and a null one are the same to the code; `genres` may be absent.
pub record ListItem : Type 0 where
  pub id : String
  pub position : ℕ
  pub note : Option String
  pub added_at : String
  pub added_by_user_id : String
  pub like_count : ℕ
  pub dislike_count : ℕ
  pub is_own : Bool
  pub can_remove : Bool
  pub my_vote : Option Bool
  pub entity : EntityMini
  pub year : Option ℕ
  pub director : Option EntityRef
  pub lead_actor : Option EntityRef
  pub genres : Option (List EntityRef)
  pub overview : Option String

-- `unlinked` is "none".
pub data EdgeKind : Type 0 where
  people genre unlinked : EdgeKind

pub record ListEdge : Type 0 where
  pub from_rank : ℕ
  pub kind : EdgeKind
  pub label_fa : Option Text
  pub value : Option Text
  pub targets : List EntityRef

pub record ListBacklink : Type 0 where
  pub rank : ℕ
  pub target_position : ℕ
  pub person_name : Text
  pub person_name_fa : Option Text
  pub person_slug : String

pub record ListDetail : Type 0 where
  pub items : List ListItem
  pub edges : Option (List ListEdge)
  pub backlinks : Option (List ListBacklink)

-- `genres ?? []`
abbrev pub genres_of : ListItem → List EntityRef
genres_of item = elim item.genres [ none ↦ [] | some gs ↦ gs ]

-- `new Set(refs.map((r) => r.id)).has(id)`
unfoldable pub has_id : String → List EntityRef → Bool
has_id id [] = false
has_id id (r ∷ rs) = str_eq r.id id || has_id id rs

-- Both persons are there and have one id.
abbrev pub same_ref : Option EntityRef → Option EntityRef → Bool
same_ref none q = false
same_ref (some p) none = false
same_ref (some p) (some q) = str_eq q.id p.id

-- `mine.filter((g) => theirs.has(g.id))`
unfoldable pub shared_refs : List EntityRef → List EntityRef → List EntityRef
unfolding has_id
shared_refs [] theirs = []
shared_refs (r ∷ mine) theirs =
    let rest = shared_refs mine theirs in if has_id r.id theirs then r ∷ rest else rest

-- `title_fa ?? title`
abbrev pub fa_or_title : EntityRef → Text
fa_or_title r = elim r.title_fa [ none ↦ r.title | some fa ↦ fa ]
