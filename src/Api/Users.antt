-- ===== src/Api/Users.antt =====
-- frontend/lib/api.ts: the account's calls, ratings, favourites, marks and follows. A
-- payload that is passed on whole is a JSON value.
use rank_verse.Base.Text.{Text, codes}
use rank_verse.Base.{ℕ, String, Option, none, some, [], ◌∷◌, ◌++◌, if◌then◌else◌, ◌==◌}
use rank_verse.Base.Text.{text_eq}
use rank_verse.Labels.Digits.{decimal}
use rank_verse.Api.Client.{
  Net, Client, settle, ok, ◌>>=◌, fetch_envelope, auth_fetch, post_envelope, payload, object, text,
  number,
}
use rank_verse.Api.Titles.{community_ttl}

-- `tv_series` and `person` have paths of their own; any other type is a film.
abbrev rate_path_for : Text → Text → Text
rate_path_for type slug =
    if text_eq type (codes "tv_series")
    then codes "/tv-series/" ++ slug ++ codes "/rate"
    else codes "/movies/" ++ slug ++ codes "/rate"

abbrev suggested_battle_path_for : Text → Text → Text
suggested_battle_path_for type slug =
    if text_eq type (codes "tv_series")
    then codes "/tv-series/" ++ slug ++ codes "/suggested-battle"
    else codes "/movies/" ++ slug ++ codes "/suggested-battle"

abbrev favorite_path_for : Text → Text → Text
favorite_path_for type slug =
    if text_eq type (codes "tv_series")
    then codes "/tv-series/" ++ slug ++ codes "/favorite"
    else if text_eq type (codes "person")
    then codes "/persons/" ++ slug ++ codes "/favorite"
    else codes "/movies/" ++ slug ++ codes "/favorite"

-- `limit ? "?limit=" + limit : ""`
abbrev limit_suffix : Option ℕ → Text
limit_suffix none = []
limit_suffix (some n) = if n == 0 then [] else codes "?limit=" ++ decimal n

module _ {S J : Type 0} (net : Net S J) where
  unfoldable pub register_user : J → Client S J
  register_user json = post_envelope net (codes "/auth/register") (payload json)

  unfoldable pub login_user : J → Client S J
  login_user json = post_envelope net (codes "/auth/login") (payload json)

  unfoldable pub login_with_google : Text → Client S J
  login_with_google credential =
      post_envelope net (codes "/auth/google") (object ((codes "credential", text credential) ∷ []))

  unfoldable pub get_me : String → Client S J
  get_me token = auth_fetch net (codes "/auth/me") token (codes "GET") none

  unfoldable pub update_my_profile : String → J → Client S J
  update_my_profile token update =
      auth_fetch net (codes "/users/me") token (codes "PATCH") (some (payload update))

  unfoldable pub change_my_password : String → Text → Text → Client S J
  change_my_password token current new =
      auth_fetch net (codes "/auth/change-password") token (codes "POST") (
        some (
          object
            ((codes "current_password", text current) ∷ (codes "new_password", text new) ∷ [])))

  unfoldable pub delete_my_account : String → Text → Client S J
  delete_my_account token password =
      auth_fetch net (codes "/auth/delete-account") token (codes "POST")
        (some (object ((codes "password", text password) ∷ [])))

  -- The token of these two is the one of an e-mailed link, part of the body.
  unfoldable pub verify_email : Text → Client S J
  verify_email token =
      post_envelope net (codes "/auth/verify-email") (object ((codes "token", text token) ∷ []))

  unfoldable pub resend_verification_email : String → Client S J
  resend_verification_email token =
      auth_fetch net (codes "/auth/resend-verification") token (codes "POST") none

  unfoldable pub request_password_reset : Text → Client S J
  request_password_reset email =
      post_envelope net (codes "/auth/forgot-password") (object ((codes "email", text email) ∷ []))

  unfoldable pub reset_password : Text → Text → Client S J
  reset_password token new =
      post_envelope net (codes "/auth/reset-password")
        (object ((codes "token", text token) ∷ (codes "new_password", text new) ∷ []))

  unfoldable pub get_my_ratings : String → Client S J
  get_my_ratings token = auth_fetch net (codes "/users/me/ratings") token (codes "GET") none

  unfoldable pub get_my_taste_dna : String → Text → Client S J
  get_my_taste_dna token scope =
      auth_fetch net (codes "/users/me/taste-dna?entity_scope=" ++ scope) token (codes "GET") none

  unfoldable pub get_my_list_stats : String → Client S J
  get_my_list_stats token = auth_fetch net (codes "/users/me/list-stats") token (codes "GET") none

  unfoldable pub get_my_predicted_picks : String → Option ℕ → Client S J
  get_my_predicted_picks token limit =
      auth_fetch net (codes "/users/me/predicted-picks" ++ limit_suffix limit) token (codes "GET")
        none

  unfoldable pub get_suggested_battle : String → Text → Text → Client S J
  get_suggested_battle token type slug =
      auth_fetch net (suggested_battle_path_for type slug) token (codes "GET") none

  unfoldable pub rate_entity : String → Text → ℕ → Text → Client S J
  rate_entity token slug score type =
      auth_fetch net (rate_path_for type slug) token (codes "POST")
        (some (object ((codes "score", number score) ∷ [])))

  unfoldable pub unrate_entity : String → Text → Text → Client S J
  unrate_entity token slug type =
      auth_fetch net (rate_path_for type slug) token (codes "DELETE") none

  unfoldable pub rate_movie : String → Text → ℕ → Client S J
  unfolding rate_entity
  rate_movie token slug score = rate_entity token slug score (codes "movie")

  unfoldable pub unrate_movie : String → Text → Client S J
  unfolding unrate_entity
  unrate_movie token slug = unrate_entity token slug (codes "movie")

  unfoldable pub toggle_favorite : String → Text → Text → Client S J
  toggle_favorite token slug type =
      auth_fetch net (favorite_path_for type slug) token (codes "POST") none

  unfoldable pub get_my_favorites : String → Client S J
  get_my_favorites token = auth_fetch net (codes "/users/me/favorites") token (codes "GET") none

  unfoldable pub get_watch_later_entity_ids : String → Client S J
  get_watch_later_entity_ids token = do
    d ← auth_fetch net (codes "/users/me/watch-later") token (codes "GET") none
    settle (ok (net.field (codes "entity_ids") d))

  unfoldable pub get_watch_later_items : String → Client S J
  get_watch_later_items token =
      auth_fetch net (codes "/users/me/watch-later/items") token (codes "GET") none

  unfoldable pub toggle_watch_later : String → Text → Client S J
  toggle_watch_later token entity_id =
      auth_fetch net (codes "/users/me/watch-later/toggle") token (codes "POST")
        (some (object ((codes "entity_id", text entity_id) ∷ [])))

  unfoldable pub get_watched_entity_ids : String → Client S J
  get_watched_entity_ids token = do
    d ← auth_fetch net (codes "/users/me/watched") token (codes "GET") none
    settle (ok (net.field (codes "entity_ids") d))

  unfoldable pub toggle_watched : String → Text → Client S J
  toggle_watched token entity_id =
      auth_fetch net (codes "/users/me/watched/toggle") token (codes "POST")
        (some (object ((codes "entity_id", text entity_id) ∷ [])))

  unfoldable pub get_public_user : Text → Client S J
  get_public_user username =
      fetch_envelope net (codes "/users/" ++ net.encode username) community_ttl []

  unfoldable pub get_public_taste_dna : Text → Text → Client S J
  get_public_taste_dna username scope =
      fetch_envelope net
        (codes "/users/" ++ net.encode username ++ codes "/taste-dna?entity_scope=" ++ scope)
        community_ttl []

  unfoldable pub get_public_user_lists : Text → Client S J
  get_public_user_lists username =
      fetch_envelope net (codes "/users/" ++ net.encode username ++ codes "/lists") community_ttl []

  unfoldable pub get_similar_users : String → ℕ → Client S J
  get_similar_users token limit =
      auth_fetch net (codes "/users/similar?limit=" ++ decimal limit) token (codes "GET") none

  unfoldable pub toggle_user_follow : String → Text → Client S J
  toggle_user_follow token user_id =
      auth_fetch net (codes "/users/" ++ user_id ++ codes "/follow") token (codes "POST") none

  unfoldable pub add_entity_comment : String → Text → J → Client S J
  add_entity_comment token entity_id json =
      auth_fetch net (codes "/entities/" ++ entity_id ++ codes "/comments") token (codes "POST")
        (some (payload json))

  unfoldable pub delete_entity_comment : String → Text → Text → Client S J
  delete_entity_comment token entity_id comment_id =
      auth_fetch net (codes "/entities/" ++ entity_id ++ codes "/comments/" ++ comment_id) token
        (codes "DELETE") none
