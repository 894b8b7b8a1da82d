-- ===== src/Api/Notifications.antt =====
-- frontend/lib/notifications.ts: the calls of the bell, of the notifications' page and of the preferences.
use rank_verse.Base.{ℕ, String, Bool, Option, none, some, [], ◌∷◌, ◌++◌, List}
use rank_verse.Base.Text.{Text, codes}
use rank_verse.Labels.Digits.{decimal}
use rank_verse.Api.Client.{
  Net, Client, settle, ok, ◌>>=◌, auth_fetch, object, flags, Query, put, set_text,
}

unfoldable pub notifications_query : Option Text → ℕ → Query
unfolding put set_text
notifications_query cursor limit =
    set_text (codes "cursor") cursor (put (codes "limit") (decimal limit) [])

module _ {S J : Type 0} (net : Net S J) where
  unfoldable pub fetch_notifications : String → Option Text → ℕ → Client S J
  fetch_notifications token cursor limit =
      auth_fetch net (codes "/notifications?" ++ net.query (notifications_query cursor limit)) token
        (codes "GET") none

  unfoldable pub fetch_unread_count : String → Client S J
  fetch_unread_count token = do
    d ← auth_fetch net (codes "/notifications/unread-count") token (codes "GET") none
    settle (ok (net.field (codes "count") d))

  unfoldable pub mark_notification_read : String → Text → Client S J
  mark_notification_read token id =
      auth_fetch net (codes "/notifications/" ++ id ++ codes "/read") token (codes "POST") none

  unfoldable pub mark_all_notifications_read : String → Client S J
  mark_all_notifications_read token =
      auth_fetch net (codes "/notifications/read-all") token (codes "POST") none

  unfoldable pub delete_notification : String → Text → Client S J
  delete_notification token id =
      auth_fetch net (codes "/notifications/" ++ id) token (codes "DELETE") none

  unfoldable pub fetch_notification_preferences : String → Client S J
  fetch_notification_preferences token =
      auth_fetch net (codes "/notifications/preferences") token (codes "GET") none

  unfoldable pub update_notification_preferences : String → List (Text × Bool) → Client S J
  update_notification_preferences token preferences =
      auth_fetch net (codes "/notifications/preferences") token (codes "PUT")
        (some (object ((codes "preferences", flags preferences) ∷ [])))
