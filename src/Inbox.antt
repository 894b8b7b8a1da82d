-- ===== src/Inbox.antt =====
-- frontend/app/notifications/NotificationsView.tsx: the page of all notifications, read page by page as
-- the viewer scrolls, and the viewer's preferences.
pub mod Pages
pub mod Refused
mod Tests
use rank_verse.Base.{
  ℕ, ◌||◌, Bool, true, false, not, String, Option, none, some, List, [], ◌∷◌, ◌++◌, map, str_eq,
  if◌then◌else◌,
}
use rank_verse.Base.Keep.{keep, some_of}
use rank_verse.Bell.{AppNotification, read_item, set_read}

pub record Inbox : Type 0 where
  pub items : List AppNotification
  pub cursor : Option String
  pub is_done : Bool
  pub has_failed : Bool
  pub is_busy : Bool

abbrev pub empty : Inbox
empty = record { items = []; cursor = none; is_done = false; has_failed = false; is_busy = false }

pub record NotificationPage : Type 0 where
  pub items : List AppNotification
  pub next_cursor : Option String

-- `loadMore` up to its request, which is for the page at the cursor; `true` where it is sent.
unfoldable pub load_more : Bool → Inbox → Inbox × Bool
load_more has_token b =
    if not has_token || (b.is_busy || b.is_done)
    then (b, false)
    else (record b { is_busy = true; has_failed = false }, true)

abbrev pub is_new : List AppNotification → AppNotification → Bool
is_new cur n = not (some_of (λ c. str_eq c.id n.id) cur)

-- `!page.next_cursor`; the empty cursor counts as none.
abbrev pub is_last : Option String → Bool
is_last none = true
is_last (some cursor) = str_eq cursor ""

-- Its answer, `none` where it failed.
unfoldable pub page_answered : Option NotificationPage → Inbox → Inbox
page_answered none b = record b { has_failed = true; is_busy = false }
page_answered (some page) b = record b {
  items = b.items ++ keep (is_new b.items) page.items;
  cursor = page.next_cursor;
  is_done = b.is_done || is_last page.next_cursor;
  is_busy = false;
}

-- The effect that loads the first page.
abbrev pub is_nil {ℓ} : {A : Type ℓ} → List A → Bool
is_nil [] = true
is_nil (x ∷ xs) = false

unfoldable pub first_load : Bool → Inbox → Inbox × Bool
unfolding load_more
first_load has_token b =
    let loading = load_more has_token b in
    if not has_token || (not (is_nil b.items) || (b.is_done || b.has_failed))
    then (b, false)
    else loading

abbrev pub put_read : String → Bool → AppNotification → AppNotification
put_read id is_read i = if str_eq i.id id then record i { is_read = is_read } else i

-- The handlers: what they show before the answer, and `some` after it where the request is sent.
unfoldable pub handle_open :
    Bool → AppNotification → List AppNotification → Option (List AppNotification)
handle_open has_token n cur =
    if n.is_read || not has_token then none else some (map (put_read n.id true) cur)

unfoldable pub open_answered : Bool → AppNotification → List AppNotification → List AppNotification
open_answered true n cur = cur
open_answered false n cur = map (put_read n.id false) cur

unfoldable pub handle_delete :
    Bool → AppNotification → List AppNotification → Option (List AppNotification)
handle_delete has_token n cur =
    if has_token then some (keep (λ i. not (str_eq i.id n.id)) cur) else none

unfoldable pub handle_read_all : Bool → List AppNotification → Option (List AppNotification)
handle_read_all has_token cur = if has_token then some (map read_item cur) else none

-- The answer to a deletion and to a reading of all; `before` is the list at the click.
unfoldable pub put_back : Bool → List AppNotification → List AppNotification → List AppNotification
put_back true before cur = cur
put_back false before cur = before

-- The preferences by type; a missing one counts as off in `!prefs[type]`.
abbrev pub Prefs : Type 0
Prefs = String → Option Bool

abbrev pub put_pref : String → Bool → Prefs → Prefs
put_pref type value prefs k = if str_eq k type then some value else prefs k

abbrev pub flipped : Option Bool → Bool
flipped none = true
flipped (some value) = not value

-- `togglePref` up to its request: what is shown, and the value sent.
unfoldable pub toggle_pref : Bool → String → Option Prefs → Option Prefs × Option Bool
toggle_pref has_token type none = (none, none)
toggle_pref has_token type (some prefs) =
    let next = flipped (prefs type) in
    if has_token then (some (put_pref type next prefs), some next) else (some prefs, none)

-- The answer, all preferences, or none where it failed; `next` is the value sent.
unfoldable pub pref_answered : Option Prefs → String → Bool → Option Prefs → Option Prefs
pref_answered (some answer) type next shown = some answer
pref_answered none type next none = none
pref_answered none type next (some p) = some (put_pref type (not next) p)
