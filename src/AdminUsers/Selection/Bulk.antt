-- ===== src/AdminUsers/Selection/Bulk.antt =====
-- The actions on many users that frontend/app/admin/(protected)/users/AdminUsersManager.tsx asks for.
use rank_verse.Base.{
  ℕ, ◌≤◌, Bool, true, false, String, Option, none, some, List, [], ◌∷◌, length, ◌≡◌,
}
use rank_verse.AdminUsers.Selection.Ticks.{AreIds}
use rank_verse.AdminUsers.Selection.{
  BulkAction, Table, tick_row, toggle_page, select_matching, clear_selection, selected_count,
  open_bulk, cancel_bulk, exec_bulk, bulk_answered, refreshed, rows_changed, filters_changed,
  max_bulk_ids,
}

pub data Event : Type 0 where
  tick : String → Event
  tick_page match_all clear : Event
  press : BulkAction → Event
  cancel confirm : Event
  answer : Bool → Event
  refresh_ends : Event
  get_rows : List String → ℕ → Event
  filter : Event

abbrev covered : Option BulkAction → (Table → Table) → Table → Table
covered none f t = f t
covered (some action) f t = t

-- The dialog covers the table and the toolbar.
unfoldable pub on : Event → Table → Table
unfolding tick_row toggle_page select_matching clear_selection open_bulk cancel_bulk exec_bulk
    bulk_answered refreshed rows_changed filters_changed
on (tick id) t = covered t.dialog (tick_row id) t
on tick_page t = covered t.dialog toggle_page t
on match_all t = covered t.dialog select_matching t
on clear t = covered t.dialog clear_selection t
on (press action) t = covered t.dialog (open_bulk action) t
on cancel t = cancel_bulk t
on confirm t = (exec_bulk t).0
on (answer succeeds) t = bulk_answered succeeds t
on refresh_ends t = refreshed t
on (get_rows rows total) t = rows_changed rows total t
on filter t = filters_changed t

unfoldable pub run : List Event → Table → Table
unfolding on
run [] t = t
run (e ∷ es) t = run es (on e t)

-- A dialog is open on a selection within the bound.
abbrev IsWithin : Option BulkAction → Bool → List String → Type 0
IsWithin none all_matching selected = Unit
IsWithin (some action) true selected = Unit
IsWithin (some action) false selected = length selected ≤ max_bulk_ids

pub record IsReady (t : Table) : Type 0 where
  pub apart : AreIds t.selected
  pub within : IsWithin t.dialog t.all_matching t.selected

-- Users that an action may be asked for: none of them twice, as many as the dialog says, and no more
-- than the backend takes.
pub record IsBatch (t : Table) (ids : List String) : Type 0 where
  pub apart : AreIds ids
  pub counted : selected_count t ≡ length ids
  pub few : length ids ≤ max_bulk_ids
