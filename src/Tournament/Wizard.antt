-- ===== src/Tournament/Wizard.antt =====
-- frontend/components/tournament/BattleWizard.tsx: a battle's draft, its information and its entries,
-- up to its publication.
pub mod Ready
use rank_verse.Base.{inl}
use rank_verse.Base.{inr}
use rank_verse.Base.{◌⊎◌}
use rank_verse.Base.{
  ℕ, ◌||◌, ◌&&◌, Bool, true, false, not, String, Option, none, some, List, [], ◌∷◌, ◌++◌, map,
  str_eq, ltb, leb, ◌==◌, length, take, if◌then◌else◌,
}
use rank_verse.Base.Keep.{keep, some_of}

pub data EntityType : Type 0 where
  movie tv_series : EntityType

-- `entity_type` as the server writes it.
abbrev pub type_code : EntityType → String
type_code movie = "movie"
type_code tv_series = "tv_series"

pub record Entity : Type 0 where
  pub id : String
  pub slug : String
  pub entity_type : String
  pub title : String
  pub title_fa : Option String
  pub poster_url : Option String

pub record Wizard : Type 0 where
  pub step : ℕ
  pub slug : Option String
  pub title : String
  pub description : String
  pub entity_type : EntityType
  pub size : ℕ
  pub entries : List Entity
  pub busy : Bool
  pub error : Option String

abbrev pub fresh : Option String → Wizard
fresh resume_slug = record {
  step = 0;
  slug = resume_slug;
  title = "";
  description = "";
  entity_type = movie;
  size = 8;
  entries = [];
  busy = false;
  error = none;
}

-- The draft that the server has for `?slug=`.
pub record Draft : Type 0 where
  pub is_draft : Bool
  pub is_owner : Bool
  pub title : String
  pub description : Option String
  pub entity_type : EntityType
  pub bracket_size : ℕ
  pub participants : List Entity

abbrev pub or_empty : Option String → String
or_empty none = ""
or_empty (some s) = s

-- `true` where the page leaves for the battle's own.
unfoldable pub resumed : Draft ⊎ String → Wizard → Wizard × Bool
resumed (inr message) w = (record w { error = some message }, false)
resumed (inl d) w =
    if d.is_draft && d.is_owner
    then (
      record w {
        title = d.title;
        description = or_empty d.description;
        entity_type = d.entity_type;
        size = d.bracket_size;
        entries = d.participants;
      },
      false,
    )
    else (w, true)

-- `run` before its action; without a token the login is shown.
unfoldable pub run_started : Option String → Wizard → Wizard × Bool
run_started none w = (w, false)
run_started (some token) w = (record w { busy = true; error = none }, true)

-- `run` after an action that failed.
unfoldable pub run_failed : String → Wizard → Wizard
run_failed message w = record w { busy = false; error = some message }

pub data InfoRequest : Type 0 where
  update : String → String → String → EntityType → ℕ → InfoRequest
  create : String → Option String → EntityType → ℕ → InfoRequest

-- `description || undefined`
abbrev pub or_undefined : String → Option String
or_undefined s = if str_eq s "" then none else some s

-- The request of `saveInfo`; an empty slug counts as none.
abbrev pub has_slug : Option String → Bool
has_slug none = false
has_slug (some slug) = not (str_eq slug "")

unfoldable pub info_request : Wizard → InfoRequest
info_request w =
    if has_slug w.slug
    then update (or_empty w.slug) w.title w.description w.entity_type w.size
    else create w.title (or_undefined w.description) w.entity_type w.size

abbrev pub is_of : EntityType → Entity → Bool
is_of type e = str_eq e.entity_type (type_code type)

-- `saveInfo` after the server has saved: the slug is the created draft's, and the type and the size
-- are those at the click.
unfoldable pub info_saved : String → EntityType → ℕ → Wizard → Wizard
info_saved created type size w = record w {
  slug = if has_slug w.slug then w.slug else some created;
  entries = take size (keep (is_of type) w.entries);
  step = 1;
  busy = false;
}

abbrev pub has_entry : String → List Entity → Bool
has_entry id entries = some_of (λ x. str_eq x.id id) entries

unfoldable pub add : Entity → Wizard → Wizard
add e w =
    if leb w.size (length w.entries) || has_entry e.id w.entries
    then w
    else record w { entries = w.entries ++ e ∷ [] }

-- The loop of `addMany`: `ids` are the entries before it, and are not added to.
unfoldable pub add_each : ℕ → List Entity → List Entity → List Entity → List Entity
add_each size ids next [] = next
add_each size ids next (e ∷ list) =
    let longer = add_each size ids (next ++ e ∷ []) list in
    let same = add_each size ids next list in
    if ltb (length next) size && not (has_entry e.id ids) then longer else same

unfoldable pub add_many : List Entity → Wizard → Wizard
unfolding add_each
add_many list w = record w { entries = add_each w.size w.entries w.entries list }

unfoldable pub remove : String → Wizard → Wizard
remove id w = record w { entries = keep (λ x. not (str_eq x.id id)) w.entries }

unfoldable pub back : Wizard → Wizard
back w = record w { step = 0 }

-- The button that publishes is off while busy or until all places are taken; else the ids it sends.
unfoldable pub publish : Wizard → Option (List String)
publish w =
    if w.busy || not (length w.entries == w.size) then none else some (map (λ e. e.id) w.entries)
