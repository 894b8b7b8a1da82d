-- ===== src/Api/Calls/User.antt =====
-- The calls of frontend/lib/api.ts in Api/Users as data, and that none of them asks for an answer to be kept with a
-- token.
use rank_verse.Base.{ℕ, String, Option}
use rank_verse.Base.Text.{Text}
use rank_verse.Api.Client.{Net, Client}
use rank_verse.Api.Sends.{logged, Sends}
use rank_verse.Api.Private.{
  raw-Sends, IsShareable, discard, discard-Sends, then_settle, fetch_envelope-Sends,
  post_envelope-Sends, auth_fetch-Sends,
}
use rank_verse.Api.Contact
use rank_verse.Api.Users

pub data UserCall (J : Type 0) : Type 0 where
  register_user : J → UserCall J
  login_user : J → UserCall J
  login_with_google : Text → UserCall J
  get_me : String → UserCall J
  update_my_profile : String → J → UserCall J
  change_my_password : String → Text → Text → UserCall J
  delete_my_account : String → Text → UserCall J
  verify_email : Text → UserCall J
  resend_verification_email : String → UserCall J
  request_password_reset : Text → UserCall J
  reset_password : Text → Text → UserCall J
  get_my_ratings : String → UserCall J
  get_my_taste_dna : String → Text → UserCall J
  get_my_list_stats : String → UserCall J
  get_my_predicted_picks : String → Option ℕ → UserCall J
  get_suggested_battle : String → Text → Text → UserCall J
  rate_entity : String → Text → ℕ → Text → UserCall J
  unrate_entity : String → Text → Text → UserCall J
  rate_movie : String → Text → ℕ → UserCall J
  unrate_movie : String → Text → UserCall J
  toggle_favorite : String → Text → Text → UserCall J
  get_my_favorites : String → UserCall J
  get_watch_later_entity_ids : String → UserCall J
  get_watch_later_items : String → UserCall J
  toggle_watch_later : String → Text → UserCall J
  get_watched_entity_ids : String → UserCall J
  toggle_watched : String → Text → UserCall J
  get_public_user : Text → UserCall J
  get_public_taste_dna : Text → Text → UserCall J
  get_public_user_lists : Text → UserCall J
  get_similar_users : String → ℕ → UserCall J
  toggle_user_follow : String → Text → UserCall J
  add_entity_comment : String → Text → J → UserCall J
  delete_entity_comment : String → Text → Text → UserCall J
  send_contact_message : J → Option String → UserCall J

module _ {S J : Type 0} (net : Net S J) where
  unfoldable pub run_user : UserCall J → Client S (Unit {0})
  run_user (register_user a) = discard (Users.register_user net a)
  run_user (login_user a) = discard (Users.login_user net a)
  run_user (login_with_google a) = discard (Users.login_with_google net a)
  run_user (get_me a) = discard (Users.get_me net a)
  run_user (update_my_profile a b) = discard (Users.update_my_profile net a b)
  run_user (change_my_password a b c) = discard (Users.change_my_password net a b c)
  run_user (delete_my_account a b) = discard (Users.delete_my_account net a b)
  run_user (verify_email a) = discard (Users.verify_email net a)
  run_user (resend_verification_email a) = discard (Users.resend_verification_email net a)
  run_user (request_password_reset a) = discard (Users.request_password_reset net a)
  run_user (reset_password a b) = discard (Users.reset_password net a b)
  run_user (get_my_ratings a) = discard (Users.get_my_ratings net a)
  run_user (get_my_taste_dna a b) = discard (Users.get_my_taste_dna net a b)
  run_user (get_my_list_stats a) = discard (Users.get_my_list_stats net a)
  run_user (get_my_predicted_picks a b) = discard (Users.get_my_predicted_picks net a b)
  run_user (get_suggested_battle a b c) = discard (Users.get_suggested_battle net a b c)
  run_user (rate_entity a b c d) = discard (Users.rate_entity net a b c d)
  run_user (unrate_entity a b c) = discard (Users.unrate_entity net a b c)
  run_user (rate_movie a b c) = discard (Users.rate_movie net a b c)
  run_user (unrate_movie a b) = discard (Users.unrate_movie net a b)
  run_user (toggle_favorite a b c) = discard (Users.toggle_favorite net a b c)
  run_user (get_my_favorites a) = discard (Users.get_my_favorites net a)
  run_user (get_watch_later_entity_ids a) = discard (Users.get_watch_later_entity_ids net a)
  run_user (get_watch_later_items a) = discard (Users.get_watch_later_items net a)
  run_user (toggle_watch_later a b) = discard (Users.toggle_watch_later net a b)
  run_user (get_watched_entity_ids a) = discard (Users.get_watched_entity_ids net a)
  run_user (toggle_watched a b) = discard (Users.toggle_watched net a b)
  run_user (get_public_user a) = discard (Users.get_public_user net a)
  run_user (get_public_taste_dna a b) = discard (Users.get_public_taste_dna net a b)
  run_user (get_public_user_lists a) = discard (Users.get_public_user_lists net a)
  run_user (get_similar_users a b) = discard (Users.get_similar_users net a b)
  run_user (toggle_user_follow a b) = discard (Users.toggle_user_follow net a b)
  run_user (add_entity_comment a b c) = discard (Users.add_entity_comment net a b c)
  run_user (delete_entity_comment a b c) = discard (Users.delete_entity_comment net a b c)
  run_user (send_contact_message a b) = discard (Contact.send_contact_message net a b)

module _ {S J : Type 0} (net : Net S J) where
  pub run_user-Sends : (call : UserCall J) → Sends IsShareable (run_user (logged net) call)
  unfolding run_user Users.register_user Users.login_user Users.login_with_google Users.get_me
      Users.update_my_profile Users.change_my_password Users.delete_my_account Users.verify_email
      Users.resend_verification_email Users.request_password_reset Users.reset_password
      Users.get_my_ratings Users.get_my_taste_dna Users.get_my_list_stats
      Users.get_my_predicted_picks Users.get_suggested_battle Users.rate_entity Users.unrate_entity
      Users.rate_movie Users.unrate_movie Users.toggle_favorite Users.get_my_favorites
      Users.get_watch_later_entity_ids Users.get_watch_later_items Users.toggle_watch_later
      Users.get_watched_entity_ids Users.toggle_watched Users.get_public_user
      Users.get_public_taste_dna Users.get_public_user_lists Users.get_similar_users
      Users.toggle_user_follow Users.add_entity_comment Users.delete_entity_comment
      Contact.send_contact_message
  run_user-Sends (register_user a) = discard-Sends net _ (post_envelope-Sends net _ _)
  run_user-Sends (login_user a) = discard-Sends net _ (post_envelope-Sends net _ _)
  run_user-Sends (login_with_google a) = discard-Sends net _ (post_envelope-Sends net _ _)
  run_user-Sends (get_me a) = discard-Sends net _ (auth_fetch-Sends net _ _ _ _)
  run_user-Sends (update_my_profile a b) = discard-Sends net _ (auth_fetch-Sends net _ _ _ _)
  run_user-Sends (change_my_password a b c) = discard-Sends net _ (auth_fetch-Sends net _ _ _ _)
  run_user-Sends (delete_my_account a b) = discard-Sends net _ (auth_fetch-Sends net _ _ _ _)
  run_user-Sends (verify_email a) = discard-Sends net _ (post_envelope-Sends net _ _)
  run_user-Sends (resend_verification_email a) = discard-Sends net _ (auth_fetch-Sends net _ _ _ _)
  run_user-Sends (request_password_reset a) = discard-Sends net _ (post_envelope-Sends net _ _)
  run_user-Sends (reset_password a b) = discard-Sends net _ (post_envelope-Sends net _ _)
  run_user-Sends (get_my_ratings a) = discard-Sends net _ (auth_fetch-Sends net _ _ _ _)
  run_user-Sends (get_my_taste_dna a b) = discard-Sends net _ (auth_fetch-Sends net _ _ _ _)
  run_user-Sends (get_my_list_stats a) = discard-Sends net _ (auth_fetch-Sends net _ _ _ _)
  run_user-Sends (get_my_predicted_picks a b) = discard-Sends net _ (auth_fetch-Sends net _ _ _ _)
  run_user-Sends (get_suggested_battle a b c) = discard-Sends net _ (auth_fetch-Sends net _ _ _ _)
  run_user-Sends (rate_entity a b c d) = discard-Sends net _ (auth_fetch-Sends net _ _ _ _)
  run_user-Sends (unrate_entity a b c) = discard-Sends net _ (auth_fetch-Sends net _ _ _ _)
  run_user-Sends (rate_movie a b c) = discard-Sends net _ (auth_fetch-Sends net _ _ _ _)
  run_user-Sends (unrate_movie a b) = discard-Sends net _ (auth_fetch-Sends net _ _ _ _)
  run_user-Sends (toggle_favorite a b c) = discard-Sends net _ (auth_fetch-Sends net _ _ _ _)
  run_user-Sends (get_my_favorites a) = discard-Sends net _ (auth_fetch-Sends net _ _ _ _)
  run_user-Sends (get_watch_later_entity_ids a) =
      discard-Sends net _ (then_settle net _ _ (auth_fetch-Sends net _ _ _ _))
  run_user-Sends (get_watch_later_items a) = discard-Sends net _ (auth_fetch-Sends net _ _ _ _)
  run_user-Sends (toggle_watch_later a b) = discard-Sends net _ (auth_fetch-Sends net _ _ _ _)
  run_user-Sends (get_watched_entity_ids a) =
      discard-Sends net _ (then_settle net _ _ (auth_fetch-Sends net _ _ _ _))
  run_user-Sends (toggle_watched a b) = discard-Sends net _ (auth_fetch-Sends net _ _ _ _)
  run_user-Sends (get_public_user a) = discard-Sends net _ (fetch_envelope-Sends net _ _ _)
  run_user-Sends (get_public_taste_dna a b) = discard-Sends net _ (fetch_envelope-Sends net _ _ _)
  run_user-Sends (get_public_user_lists a) = discard-Sends net _ (fetch_envelope-Sends net _ _ _)
  run_user-Sends (get_similar_users a b) = discard-Sends net _ (auth_fetch-Sends net _ _ _ _)
  run_user-Sends (toggle_user_follow a b) = discard-Sends net _ (auth_fetch-Sends net _ _ _ _)
  run_user-Sends (add_entity_comment a b c) = discard-Sends net _ (auth_fetch-Sends net _ _ _ _)
  run_user-Sends (delete_entity_comment a b c) = discard-Sends net _ (auth_fetch-Sends net _ _ _ _)
  run_user-Sends (send_contact_message a b) = discard-Sends net _ (raw-Sends net _ _ (λ token. tt))
