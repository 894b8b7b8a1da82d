-- ===== src/Api/Calls/Notification.antt =====
-- The calls of frontend/lib/notifications.ts as data, and that none of them asks for an answer to be kept
-- with a token.
use rank_verse.Base.{ℕ, String, Bool, Option, List}
use rank_verse.Base.Text.{Text}
use rank_verse.Api.Client.{Net, Client}
use rank_verse.Api.Sends.{logged, Sends}
use rank_verse.Api.Private.{IsShareable, discard, discard-Sends, then_settle, auth_fetch-Sends}
use rank_verse.Api.Notifications

pub data NotificationCall : Type 0 where
  fetch_notifications : String → Option Text → ℕ → NotificationCall
  fetch_unread_count : String → NotificationCall
  mark_notification_read : String → Text → NotificationCall
  mark_all_notifications_read : String → NotificationCall
  delete_notification : String → Text → NotificationCall
  fetch_notification_preferences : String → NotificationCall
  update_notification_preferences : String → List (Text × Bool) → NotificationCall

module _ {S J : Type 0} (net : Net S J) where
  unfoldable pub run_notification : NotificationCall → Client S (Unit {0})
  run_notification (fetch_notifications a b c) =
      discard (Notifications.fetch_notifications net a b c)
  run_notification (fetch_unread_count a) = discard (Notifications.fetch_unread_count net a)
  run_notification (mark_notification_read a b) =
      discard (Notifications.mark_notification_read net a b)
  run_notification (mark_all_notifications_read a) =
      discard (Notifications.mark_all_notifications_read net a)
  run_notification (delete_notification a b) = discard (Notifications.delete_notification net a b)
  run_notification (fetch_notification_preferences a) =
      discard (Notifications.fetch_notification_preferences net a)
  run_notification (update_notification_preferences a b) =
      discard (Notifications.update_notification_preferences net a b)

module _ {S J : Type 0} (net : Net S J) where
  pub run_notification-Sends :
      (call : NotificationCall) → Sends IsShareable (run_notification (logged net) call)
  unfolding run_notification Notifications.fetch_notifications Notifications.fetch_unread_count
      Notifications.mark_notification_read Notifications.mark_all_notifications_read
      Notifications.delete_notification Notifications.fetch_notification_preferences
      Notifications.update_notification_preferences
  run_notification-Sends (fetch_notifications a b c) =
      discard-Sends net _ (auth_fetch-Sends net _ _ _ _)
  run_notification-Sends (fetch_unread_count a) =
      discard-Sends net _ (then_settle net _ _ (auth_fetch-Sends net _ _ _ _))
  run_notification-Sends (mark_notification_read a b) =
      discard-Sends net _ (auth_fetch-Sends net _ _ _ _)
  run_notification-Sends (mark_all_notifications_read a) =
      discard-Sends net _ (auth_fetch-Sends net _ _ _ _)
  run_notification-Sends (delete_notification a b) =
      discard-Sends net _ (auth_fetch-Sends net _ _ _ _)
  run_notification-Sends (fetch_notification_preferences a) =
      discard-Sends net _ (auth_fetch-Sends net _ _ _ _)
  run_notification-Sends (update_notification_preferences a b) =
      discard-Sends net _ (auth_fetch-Sends net _ _ _ _)
