-- ===== src/AdminUsers/Selection.antt =====
-- The ticks of frontend/app/admin/(protected)/users/AdminUsersManager.tsx and the actions on all of
-- them, with the bound of bulk.ts.
pub mod Ticks
pub mod Bulk
use rank_verse.Base.{
  ℕ, zero, ◌+◌, ltb, ◌||◌, ◌&&◌, Bool, true, false, not, String, Option, none, some, List, [], ◌∷◌,
  ◌++◌, length, str_eq, if◌then◌else◌,
}
use rank_verse.Base.Keep.{keep, some_of}

pub data BulkAction : Type 0 where
  block unblock delete restore verify_email : BulkAction

-- `MAX_BULK_IDS`
abbrev pub max_bulk_ids : ℕ
max_bulk_ids = 500

-- `selected` is a `Set`, in the order of insertion.
pub record Table : Type 0 where
  pub rows : List String
  pub total : ℕ
  pub selected : List String
  pub all_matching : Bool
  pub dialog : Option BulkAction
  pub busy : Bool

abbrev pub fresh : Table
fresh = record {
  rows = [];
  total = 0;
  selected = [];
  all_matching = false;
  dialog = none;
  busy = false;
}

abbrev pub has_id : String → List String → Bool
has_id id ids = some_of (λ k. str_eq k id) ids

abbrev pub add_id : String → List String → List String
add_id id ids = if has_id id ids then ids else ids ++ id ∷ []

abbrev pub delete_id : String → List String → List String
delete_id id ids = keep (λ k. not (str_eq k id)) ids

unfoldable pub toggle_row : String → Table → Table
toggle_row id t = record t {
  all_matching = false;
  selected = if has_id id t.selected then delete_id id t.selected else add_id id t.selected;
}

abbrev pub all_in : List String → List String → Bool
all_in [] selected = true
all_in (id ∷ ids) selected = has_id id selected && all_in ids selected

abbrev pub is_cons {ℓ} : {A : Type ℓ} → List A → Bool
is_cons [] = false
is_cons (x ∷ xs) = true

abbrev pub all_page_selected : Table → Bool
all_page_selected t = is_cons t.rows && all_in t.rows t.selected

unfoldable pub add_each : List String → List String → List String
add_each [] ids = ids
add_each (id ∷ page) ids = add_each page (add_id id ids)

unfoldable pub delete_each : List String → List String → List String
delete_each [] ids = ids
delete_each (id ∷ page) ids = delete_each page (delete_id id ids)

unfoldable pub clear_selection : Table → Table
clear_selection t = record t { selected = []; all_matching = false }

-- The box of a row, which is ticked where all that the filters match are.
unfoldable pub tick_row : String → Table → Table
unfolding toggle_row clear_selection
tick_row id t = if t.all_matching then clear_selection t else toggle_row id t

unfoldable pub toggle_page : Table → Table
unfolding add_each delete_each
toggle_page t = record t {
  all_matching = false;
  selected =
      if all_page_selected t then delete_each t.rows t.selected else add_each t.rows t.selected;
}

-- All that the filters match, where the page is ticked and is not all of them.
unfoldable pub select_matching : Table → Table
select_matching t =
    if all_page_selected t && ltb (length t.rows) t.total
    then record t { all_matching = true }
    else t

abbrev pub selected_count : Table → ℕ
selected_count t = if t.all_matching then t.total else length t.selected

abbrev pub too_many_ids : Table → Bool
too_many_ids t = not t.all_matching && ltb max_bulk_ids (length t.selected)

-- A button of the toolbar, which is there where users are selected.
unfoldable pub open_bulk : BulkAction → Table → Table
open_bulk action t =
    if ltb 0 (selected_count t) && not (t.busy || too_many_ids t)
    then record t { dialog = some action }
    else t

unfoldable pub cancel_bulk : Table → Table
cancel_bulk t = if t.busy then t else record t { dialog = none }

-- Whom an action is for: these users, or all that the filters match.
pub data Target : Type 0 where
  by_ids : List String → Target
  by_filter : Target

abbrev pub target_of : Bool → List String → Target
target_of true selected = by_filter
target_of false selected = by_ids selected

abbrev pub asked : Option BulkAction → Table → Table × Option (BulkAction × Target)
asked none t = (t, none)
asked (some action) t =
    if t.busy
    then (t, none)
    else (record t { busy = true }, some (action, target_of t.all_matching t.selected))

-- `execBulk` up to its request, from the dialog's button, which is off while busy.
unfoldable pub exec_bulk : Table → Table × Option (BulkAction × Target)
exec_bulk t = asked t.dialog t

-- Its answer, after which the rows are read again.
unfoldable pub bulk_answered : Bool → Table → Table
unfolding clear_selection
bulk_answered true t = clear_selection (record t { dialog = none })
bulk_answered false t = record t { busy = false }

-- The end of that reading.
unfoldable pub refreshed : Table → Table
refreshed t = record t { busy = false }

-- New rows of the same filters, and other filters.
unfoldable pub rows_changed : List String → ℕ → Table → Table
rows_changed rows total t = record t { rows = rows; total = total }

unfoldable pub filters_changed : Table → Table
unfolding clear_selection
filters_changed t = clear_selection t
