-- ===== src/Bell.antt =====
-- frontend/components/NotificationBell.tsx: the count of unread notifications, the list of the latest
-- ones, and what opening, deleting and reading them all does before and after the server's answer.
pub mod Poll
pub mod Unread
pub mod Agree
mod Tests
use rank_verse.Base.{
  ℕ, zero, ◌+◌, ◌-◌, ◌==◌, ◌||◌, Bool, true, false, not, String, Option, none, some, List, [], ◌∷◌,
  map, str_eq, if◌then◌else◌,
}
use rank_verse.Base.Keep.{keep}

pub record AppNotification : Type 0 where
  pub id : String
  pub type : String
  pub message : String
  pub link : Option String
  pub actor_count : ℕ
  pub is_read : Bool
  pub created_at : String

pub record Bell : Type 0 where
  pub count : ℕ
  pub is_open : Bool
  pub items : Option (List AppNotification)
  pub has_failed : Bool

abbrev pub fresh : Bell
fresh = record { count = 0; is_open = false; items = none; has_failed = false }

abbrev pub map_items : (List AppNotification → List AppNotification) → Bell → Bell
map_items f b = record b { items = elim b.items [ none ↦ none | some cur ↦ some (f cur) ] }

-- `loadItems` up to its request, and its answer.
unfoldable pub load_items : Bell → Bell
load_items b = record b { has_failed = false }

unfoldable pub loaded : Option (List AppNotification) → Bell → Bell
loaded none b = record b { has_failed = true }
loaded (some items) b = record b { items = some items }

-- The bell's button; the effect of an open list loads it.
unfoldable pub toggle_open : Bell → Bell
unfolding load_items
toggle_open b =
    if b.is_open then record b { is_open = false } else load_items (record b { is_open = true })

-- `Escape`, and a click elsewhere.
unfoldable pub dismiss : Bell → Bell
dismiss b = record b { is_open = false }

abbrev pub set_read : String → AppNotification → AppNotification
set_read id i = if str_eq i.id id then record i { is_read = true } else i

abbrev pub read_item : AppNotification → AppNotification
read_item i = record i { is_read = true }

-- What a handler asks of the server.
pub data Ask : Type 0 where
  mark_read delete_one : String → Ask
  mark_all_read : Ask

-- `handleOpen` up to its request.
unfoldable pub handle_open : Bool → AppNotification → Bell → Bell × Option Ask
handle_open has_token n b =
    let shut = record b { is_open = false } in
    if n.is_read || not has_token then (shut, none) else (
      record (map_items (map (set_read n.id)) shut) { count = b.count - 1 },
      some (mark_read n.id),
    )

-- Its answer: `false` is a request that failed.
unfoldable pub open_answered : Bool → Bell → Bell
open_answered true b = b
open_answered false b = record b { count = b.count + 1 }

unfoldable pub handle_delete : Bool → AppNotification → Bell → Bell × Option Ask
handle_delete has_token n b =
    if has_token
    then (
      record (map_items (keep (λ i. not (str_eq i.id n.id))) b) {
        count = if n.is_read then b.count else b.count - 1;
      },
      some (delete_one n.id),
    )
    else (b, none)

-- `before` is the list at the click.
unfoldable pub delete_answered :
    Bool → AppNotification → Option (List AppNotification) → Bell → Bell
delete_answered true n before b = b
delete_answered false n before b = record b {
  items = before;
  count = if n.is_read then b.count else b.count + 1;
}

unfoldable pub handle_read_all : Bool → Bell → Bell × Option Ask
handle_read_all has_token b =
    if not has_token || b.count == 0
    then (b, none)
    else (record (map_items (map read_item) b) { count = 0 }, some mark_all_read)

-- `before` and `prev_count` are those at the click.
unfoldable pub read_all_answered : Bool → Option (List AppNotification) → ℕ → Bell → Bell
read_all_answered true before prev_count b = b
read_all_answered false before prev_count b = record b { items = before; count = prev_count }
