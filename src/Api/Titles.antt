-- ===== src/Api/Titles.antt =====
-- frontend/lib/api.ts: the public reads of films, series, people, genres, rankings and graphs. A
-- default argument is written out by the caller.
use rank_verse.Base.Text.{Text, codes, trim}
use rank_verse.Base.{ℕ, Bool, Option, none, some, [], ◌∷◌, ◌++◌, if◌then◌else◌}
use rank_verse.Labels.Digits.{decimal}
use rank_verse.Api.Client.{
  Net, Client, Query, no_store, revalidate, settle, ok, ◌>>=◌, set_text, set_number, fetch_envelope,
  fetch_with_timeout, open_envelope, plain, public_get, accept_envelope,
}

-- `DETAIL_TTL`, `RANKING_TTL`, `COMMUNITY_TTL`
abbrev pub detail_ttl : ℕ
detail_ttl = 3600

abbrev pub ranking_ttl : ℕ
ranking_ttl = 1800

abbrev pub community_ttl : ℕ
community_ttl = 600

pub record TopFilter : Type 0 where
  pub page : Option ℕ
  pub page_size : Option ℕ
  pub genre : Option Text

abbrev pub top_query : TopFilter → Query
top_query f =
    set_text (codes "genre") f.genre
      (set_number (codes "page_size") f.page_size (set_number (codes "page") f.page []))

pub record PeopleFilter : Type 0 where
  pub page : Option ℕ
  pub page_size : Option ℕ
  pub role : Option Text
  pub sort : Option Text
  pub origin : Option Text

abbrev pub people_query : PeopleFilter → Query
people_query f = set_text (codes "sort") f.sort (
    set_text (codes "origin") f.origin (
      set_text (codes "role") f.role
        (set_number (codes "page_size") f.page_size (set_number (codes "page") f.page []))))

pub record RankingFilter : Type 0 where
  pub page : Option ℕ
  pub page_size : Option ℕ
  pub genre : Option Text
  pub sort : Option Text
  pub year_from : Option ℕ
  pub year_to : Option ℕ
  pub origin : Option Text

abbrev pub ranking_query : RankingFilter → Query
ranking_query f = set_number (codes "year_to") f.year_to (
    set_number (codes "year_from") f.year_from (
      set_text (codes "origin") f.origin (
        set_text (codes "sort") f.sort (
          set_text (codes "genre") f.genre
            (set_number (codes "page_size") f.page_size (set_number (codes "page") f.page []))))))

-- `{ items: json.data, total: json.meta?.total ?? null }`
pub record Page (J : Type 0) : Type 0 where
  pub items : J
  pub total : Option ℕ

pub data TitleType : Type 0 where
  movie tv_series : TitleType

abbrev pub section : TitleType → Text
section movie = codes "movies"
section tv_series = codes "tv-series"

abbrev search_query : Text → Option Text → Query
search_query q type = set_text (codes "type") type ((codes "q", q) ∷ [])

module _ {S J : Type 0} (net : Net S J) where
  unfoldable pub get_top_movies : TopFilter → Client S J
  get_top_movies params =
      fetch_envelope net (codes "/rankings/movies?" ++ net.query (top_query params)) ranking_ttl []

  unfoldable pub get_movie_by_slug : Text → Client S J
  get_movie_by_slug slug = fetch_envelope net (codes "/movies/" ++ slug) detail_ttl []

  unfoldable pub get_top_tv_series : TopFilter → Client S J
  get_top_tv_series params =
      fetch_envelope net (codes "/rankings/tv-series?" ++ net.query (top_query params)) ranking_ttl
        []

  unfoldable pub get_tv_series_by_slug : Text → Client S J
  get_tv_series_by_slug slug = fetch_envelope net (codes "/tv-series/" ++ slug) detail_ttl []

  unfoldable pub get_person_by_slug : Text → Client S J
  get_person_by_slug slug = fetch_envelope net (codes "/people/" ++ slug) detail_ttl []

  unfoldable pub get_genre_by_slug : Text → Client S J
  get_genre_by_slug slug = fetch_envelope net (codes "/genres/" ++ slug) detail_ttl []

  unfoldable pub get_track_by_slug : Text → Client S J
  get_track_by_slug slug = fetch_envelope net (codes "/tracks/" ++ slug) detail_ttl []

  unfoldable pub get_related_entities : Text → ℕ → Client S J
  get_related_entities entity_id limit =
      fetch_envelope net
        (codes "/entities/" ++ entity_id ++ codes "/related?limit=" ++ decimal limit) detail_ttl []

  unfoldable pub get_movie_rankings : Text → Client S J
  get_movie_rankings slug =
      fetch_envelope net (codes "/movies/" ++ slug ++ codes "/rankings") detail_ttl []

  unfoldable pub get_tv_series_rankings : Text → Client S J
  get_tv_series_rankings slug =
      fetch_envelope net (codes "/tv-series/" ++ slug ++ codes "/rankings") detail_ttl []

  unfoldable pub get_entity_comments : Text → Client S J
  get_entity_comments entity_id =
      fetch_envelope net (codes "/entities/" ++ entity_id ++ codes "/comments") 0 []

  abbrev pub to_page : J → Page J
  to_page json = record { items = net.contents json; total = net.total json }

  -- The paged reads open the envelope themselves.
  unfoldable pub get_people_page : PeopleFilter → Client S (Page J)
  get_people_page params = do
    let path = codes "/rankings/people?" ++ net.query (people_query params)
    res ← fetch_with_timeout net path (revalidate ranking_ttl [])
    json ← settle (open_envelope net path res)
    settle (ok (to_page json))

  unfoldable pub get_rankings_page : TitleType → RankingFilter → Bool → Client S (Page J)
  get_rankings_page type params fresh = do
    let path = codes "/rankings/" ++ section type ++ codes "?" ++ net.query (ranking_query params)
    res ← fetch_with_timeout net path (if fresh then no_store else revalidate ranking_ttl [])
    json ← settle (open_envelope net path res)
    settle (ok (to_page json))

  unfoldable pub get_ego_graph : Text → Client S J
  get_ego_graph slug = fetch_envelope net (codes "/graph/ego/" ++ net.encode slug) detail_ttl []

  unfoldable pub get_hero_graphs : ℕ → Client S J
  get_hero_graphs seconds = fetch_envelope net (codes "/graph/hero-pool") seconds []

  abbrev search_for : Text → Option Text → Client S (Option J)
  search_for q type = do
    res ← plain net (public_get net (codes "/search?" ++ net.query (search_query q type)) no_store)
    json ← settle (accept_envelope net (codes "Search failed") res)
    settle (ok (some (net.contents json)))

  -- By the trimmed text; `none` is the empty list, for which nothing is sent.
  abbrev pub unless_blank : Text → Text → Option Text → Client S (Option J)
  unless_blank [] q type = settle (ok none)
  unless_blank (c ∷ s) q type = search_for q type

  unfoldable pub search_entities : Text → Option Text → Client S (Option J)
  search_entities q type = unless_blank (trim q) q type

  unfoldable pub get_lists_sitemap : Client S J
  get_lists_sitemap = fetch_envelope net (codes "/sitemap/lists") 3600 []

  unfoldable pub get_battles_sitemap : Client S J
  get_battles_sitemap = fetch_envelope net (codes "/sitemap/battles") 3600 []

  unfoldable pub get_entity_sitemap_counts : Client S J
  get_entity_sitemap_counts = fetch_envelope net (codes "/sitemap/entities/counts") 3600 []

  -- The type is named as the code spells it.
  unfoldable pub get_entity_sitemap_page : Text → ℕ → ℕ → Client S J
  get_entity_sitemap_page type offset limit =
      fetch_envelope net
        (codes "/sitemap/entities?type="
          ++ type
          ++ codes "&offset="
          ++ decimal offset
          ++ codes "&limit="
          ++ decimal limit)
        3600 []
