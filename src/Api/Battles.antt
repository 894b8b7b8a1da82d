-- ===== src/Api/Battles.antt =====
-- frontend/lib/api.ts: the battles' endpoints, whose answers have no envelope, and
-- `tournamentApi` of frontend/lib/tournament.ts.
use rank_verse.Base.Text.{Text, codes}
use rank_verse.Base.{String, true, false, Option, none, some, [], ◌∷◌, ◌++◌, if◌then◌else◌, ◌==◌}
use rank_verse.Api.Client.{
  Net, Client, Query, no_store, unset, Result, settle, ok, err, ◌>>=◌, put, auth_fetch,
  with_auth_retry, accept_raw, truthy, payload, status_message, Answer, Sent,
}

-- The two ids of a pair, with its category where the pair is of a themed battle.
pub record Pair : Type 0 where
  pub category : Text
  pub left_id : Text
  pub right_id : Text

pub record Theme : Type 0 where
  pub kind : Text
  pub value : Text

abbrev preselect : Option Pair → Query → Query
preselect none q = q
preselect (some pair) q =
    put (codes "right_id") pair.right_id (put (codes "left_id") pair.left_id q)

abbrev theme_query : Option Theme → Query
theme_query none = []
theme_query (some theme) =
    put (codes "theme_value") theme.value (put (codes "theme_kind") theme.kind [])

abbrev pair_query : Option Pair → Query → Query
pair_query none q = q
pair_query (some pair) q =
    put (codes "right_id") pair.right_id
      (put (codes "left_id") pair.left_id (put (codes "category") pair.category q))

-- An empty guest id is no header.
abbrev guest_header : Option Text → Option Text
guest_header none = none
guest_header (some []) = none
guest_header (some (c ∷ s)) = some (c ∷ s)

module _ {S J : Type 0} (net : Net S J) where
  -- A request to a battles' endpoint.
  abbrev pub raw_get : Text → Option String → Option Text → Sent J
  raw_get path token guest = record {
    path = path;
    authorization = token;
    rest = record {
      method = codes "GET";
      json_content = false;
      guest = guest;
      body = none;
      cache = no_store;
    };
  }

  abbrev pub raw_post : Text → Option String → Option Text → J → Sent J
  raw_post path token guest json = record {
    path = path;
    authorization = token;
    rest = record {
      method = codes "POST";
      json_content = true;
      guest = guest;
      body = some (payload json);
      cache = unset;
    };
  }

  -- The address without its query, which the messages name.
  abbrev raw : (J → Option Text) → Text → Answer J → Client S J
  raw read path res = settle (accept_raw net read (status_message res.status path) res)

  -- `none` is no preselected pair; its category stands beside it.
  unfoldable pub get_next_battle : String → Text → Option Pair → Client S J
  get_next_battle token category preselected = do
    res ← with_auth_retry net (
        raw_get
          (codes "/battles/next?"
            ++ net.query (preselect preselected ((codes "category", category) ∷ [])))
          (some token) none)
    raw net.detail (codes "/battles/next") res

  unfoldable pub get_themed_battle : Option String → Option Pair → Option Theme → Client S J
  get_themed_battle token pair theme = do
    res ← with_auth_retry net (
        raw_get (codes "/battles/themed?" ++ net.query (pair_query pair (theme_query theme)))
          (truthy token) none)
    raw net.detail (codes "/battles/themed") res

  unfoldable pub cast_battle_vote : String → J → Client S J
  cast_battle_vote token json = do
    res ← with_auth_retry net (raw_post (codes "/battles/vote") (some token) none json)
    raw net.detail (codes "/battles/vote") res

  abbrev kept : Result J → Result (Option J)
  kept (ok json) = ok (some json)
  kept (err e) = err e

  -- `none` is no battle today, a 404.
  abbrev daily_answer : Answer J → Result (Option J)
  daily_answer res =
      if res.status == 404
      then ok none
      else kept (
          accept_raw net net.detail_string (status_message res.status (codes "/daily-battle/today"))
            res)

  unfoldable pub get_daily_battle : Option String → Option Text → Client S (Option J)
  get_daily_battle token guest_id = do
    res ←
        with_auth_retry net
          (raw_get (codes "/daily-battle/today") (truthy token) (guest_header guest_id))
    settle (daily_answer res)

  unfoldable pub cast_daily_vote : Option String → Option Text → J → Client S J
  cast_daily_vote token guest_id json = do
    res ←
        with_auth_retry net
          (raw_post (codes "/daily-battle/vote") (truthy token) (guest_header guest_id) json)
    raw net.detail_string (codes "/daily-battle/vote") res

  unfoldable pub get_pair_suggestion : String → Client S J
  get_pair_suggestion token = auth_fetch net (codes "/battles/suggestion") token (codes "GET") none
