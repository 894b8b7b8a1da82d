-- ===== src/Api/Tests.antt =====
-- The calls of the backend against a small server. A JSON value is a number: 0 has an error. The server
-- counts what reaches it, refuses the token "old" and gives "new" for a refresh.
use rank_verse.Base.{
  ℕ, zero, suc, ◌+◌, ◌≡◌, ◌↔◌, ◌==◌, refl, String, Bool, true, false, Option, none, some, List, [],
  ◌∷◌, All, str_eq, if◌then◌else◌,
}
use rank_verse.Base.Text.{codes}
use rank_verse.Account.Retry.{Tab}
use rank_verse.Api.Client.{
  fetch_with_timeout, open_envelope, Net, Sent, Answer, Timed, arrived, World, ok, public_get,
  cache_for, fetch_full_envelope, ◌>>=◌, settle,
}
use rank_verse.Api.Sends.{logged}
use rank_verse.Api.Private.{IsShareable}
use rank_verse.Api.Session.{Call, title, list, user, notification, run_all, run_all-IsShareable}
use rank_verse.Api.Calls.Title.{get_movie_by_slug}
use rank_verse.Api.Calls.Lists.{get_list_by_slug}
use rank_verse.Api.Calls.User.{get_me}
use rank_verse.Api.Calls.Notification.{fetch_unread_count}
use rank_verse.Api.Titles
use rank_verse.Api.Titles.{PeopleFilter, RankingFilter, Page}
use rank_verse.Api.Lists
use rank_verse.Api.Lists.{ListFilter}
use rank_verse.Api.Reads.{Delivers, IsMissing, not_found, fetch_full_envelope-answers}

abbrev refuses : Option String → Bool
refuses none = false
refuses (some t) = str_eq t "old"

abbrev serve : Sent ℕ → ℕ → Option (Answer ℕ) × ℕ
serve r n =
    if refuses r.authorization
    then (some (record { status = 401; body = some 0 }), n + 1)
    else (some (record { status = 200; body = some 7 }), n + 1)

abbrev serve_timed : Sent ℕ → ℕ → Timed ℕ × ℕ
serve_timed r zero = (arrived (record { status = 404; body = none }), 1)
serve_timed r (suc n) = (arrived (record { status = 200; body = some 7 }), suc (suc n))

abbrev test_net : Net ℕ ℕ
test_net = record {
  in_browser = true;
  fetch = serve;
  fetch_timed = serve_timed;
  refresh = λ stored n. (some (record { status = 200; error = none; access_token = "new" }), n + 1);
  query = λ q. [];
  encode = λ s. s;
  decode = λ s. some s;
  normalize = λ s. s;
  error = λ j. if j == 0 then some (codes "no") else none;
  contents = λ j. j + 1;
  total = λ j. some j;
  detail = λ j. none;
  detail_string = λ j. none;
  detail_fields = λ j. [];
  field = λ k j. j;
  size = λ j. j;
}

abbrev signed_in : Tab
signed_in = record { access = some "old"; refresh = some "r"; refreshed = 0; ended_sessions = 0 }

abbrev started : World ℕ
started = record { tab = signed_in; server = 1 }

abbrev a_session : List (Call ℕ)
a_session =
    title (get_movie_by_slug (codes "heat"))
    ∷ user (get_me "old")
    ∷ notification (fetch_unread_count "old")
    ∷ list (get_list_by_slug (codes "best") (some "old"))
    ∷ []

run_all-IsShareable_example :
    All IsShareable
      (run_all (logged test_net) a_session (record { tab = signed_in; server = (1, []) })).server.1
run_all-IsShareable_example = run_all-IsShareable test_net a_session signed_in 1

fetch_full_envelope-answers_example :
    (((fetch_full_envelope test_net (codes "/movies/heat") 3600 [] started).0 ≡ ok 7)
      ↔ Delivers test_net
          (serve_timed
            (public_get test_net (codes "/movies/heat") (cache_for test_net 3600 []))
            1).0
          7)
    × ((not_found test_net (fetch_full_envelope test_net (codes "/movies/heat") 3600 [] started).0
          ≡ true)
        ↔ IsMissing test_net
            (serve_timed
              (public_get test_net (codes "/movies/heat") (cache_for test_net 3600 []))
              1).0)
fetch_full_envelope-answers_example =
    fetch_full_envelope-answers test_net (codes "/movies/heat") 3600 [] started 7

found : (fetch_full_envelope test_net (codes "/movies/heat") 3600 [] started).0 ≡ ok 7
unfolding fetch_full_envelope ◌>>=◌ settle
found = refl

abbrev any_people : PeopleFilter
any_people = record { page = some 2; page_size = none; role = none; sort = none; origin = none }

abbrev any_ranking : RankingFilter
any_ranking = record {
  page = none;
  page_size = some 20;
  genre = some (codes "crime");
  sort = none;
  year_from = none;
  year_to = some 1999;
  origin = none;
}

abbrev page_two : ListFilter
page_two = record {
  page = some 2;
  page_size = some 6;
  entity_type = none;
  tag = none;
  sort = some (codes "popular");
  q = none;
}

total_found : (Lists.get_lists_total test_net 1800 started).0 ≡ ok (some 7)
unfolding Lists.get_lists_total ◌>>=◌ settle fetch_with_timeout open_envelope
total_found = refl
