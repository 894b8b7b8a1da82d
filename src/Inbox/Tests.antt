-- ===== src/Inbox/Tests.antt =====
-- The page of notifications at concrete inputs.
use rank_verse.Base.{List, [], ◌∷◌, ◌≡◌, refl, none, some, true, false, String, Option, arith}
use rank_verse.Bell.{AppNotification}
use rank_verse.Inbox.{NotificationPage, empty}
use rank_verse.Inbox.Pages.{HasRead, scroll, scroll-HasRead}
use rank_verse.Inbox.Refused.{act, opening, act-refused}

abbrev a_notification : String → AppNotification
a_notification id = record {
  id = id;
  type = "list_liked";
  message = "";
  link = none;
  actor_count = 1;
  is_read = false;
  created_at = "";
}

abbrev first : List AppNotification
first = a_notification "a" ∷ a_notification "b" ∷ []

abbrev second : List AppNotification
second = a_notification "c" ∷ []

-- Two pages.
abbrev a_server : Option String → NotificationPage
a_server none = record { items = first; next_cursor = some "1" }
a_server (some cursor) = record { items = second; next_cursor = none }

scroll-HasRead_example :
    HasRead
      (a_notification "a" ∷ a_notification "b" ∷ a_notification "c" ∷ [])
      (scroll a_server (true ∷ false ∷ true ∷ true ∷ []) empty)
scroll-HasRead_example =
    scroll-HasRead a_server (true ∷ false ∷ true ∷ true ∷ []) (first ∷ second ∷ [])
      ("1", refl, refl, refl) ((refl, (refl, tt)), ((refl, tt), (tt, tt))) (omega arith)

act-refused_example : act opening false (a_notification "b") first ≡ first
act-refused_example = act-refused opening (a_notification "b") first refl ((refl, tt), (tt, tt))
