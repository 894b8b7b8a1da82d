-- ===== src/Api/Calls/Title.antt =====
-- The calls of frontend/lib/api.ts in Api/Titles as data, and that none of them asks for an answer to be kept with a
-- token.
use rank_verse.Base.{[], ◌∷◌, ◌∷◌}
use rank_verse.Base.{[], ◌∷◌, ℕ, Bool, Option}
use rank_verse.Base.Text.{Text, trim}
use rank_verse.Api.Client.{Net, Client}
use rank_verse.Api.Sends.{logged, Sends, settle-Sends}
use rank_verse.Api.Private.{
  read_timed-Sends, read_plain-Sends, IsShareable, discard, discard-Sends, fetch_envelope-Sends,
}
use rank_verse.Api.Titles
use rank_verse.Api.Titles.{TopFilter, PeopleFilter, RankingFilter, TitleType}

pub data TitleCall (J : Type 0) : Type 0 where
  get_top_movies : TopFilter → TitleCall J
  get_movie_by_slug : Text → TitleCall J
  get_top_tv_series : TopFilter → TitleCall J
  get_tv_series_by_slug : Text → TitleCall J
  get_person_by_slug : Text → TitleCall J
  get_genre_by_slug : Text → TitleCall J
  get_track_by_slug : Text → TitleCall J
  get_related_entities : Text → ℕ → TitleCall J
  get_movie_rankings : Text → TitleCall J
  get_tv_series_rankings : Text → TitleCall J
  get_entity_comments : Text → TitleCall J
  get_people_page : PeopleFilter → TitleCall J
  get_rankings_page : TitleType → RankingFilter → Bool → TitleCall J
  get_ego_graph : Text → TitleCall J
  get_hero_graphs : ℕ → TitleCall J
  search_entities : Text → Option Text → TitleCall J
  get_lists_sitemap : TitleCall J
  get_battles_sitemap : TitleCall J
  get_entity_sitemap_counts : TitleCall J
  get_entity_sitemap_page : Text → ℕ → ℕ → TitleCall J

module _ {S J : Type 0} (net : Net S J) where
  unfoldable pub run_title : TitleCall J → Client S (Unit {0})
  run_title (get_top_movies a) = discard (Titles.get_top_movies net a)
  run_title (get_movie_by_slug a) = discard (Titles.get_movie_by_slug net a)
  run_title (get_top_tv_series a) = discard (Titles.get_top_tv_series net a)
  run_title (get_tv_series_by_slug a) = discard (Titles.get_tv_series_by_slug net a)
  run_title (get_person_by_slug a) = discard (Titles.get_person_by_slug net a)
  run_title (get_genre_by_slug a) = discard (Titles.get_genre_by_slug net a)
  run_title (get_track_by_slug a) = discard (Titles.get_track_by_slug net a)
  run_title (get_related_entities a b) = discard (Titles.get_related_entities net a b)
  run_title (get_movie_rankings a) = discard (Titles.get_movie_rankings net a)
  run_title (get_tv_series_rankings a) = discard (Titles.get_tv_series_rankings net a)
  run_title (get_entity_comments a) = discard (Titles.get_entity_comments net a)
  run_title (get_people_page a) = discard (Titles.get_people_page net a)
  run_title (get_rankings_page a b c) = discard (Titles.get_rankings_page net a b c)
  run_title (get_ego_graph a) = discard (Titles.get_ego_graph net a)
  run_title (get_hero_graphs a) = discard (Titles.get_hero_graphs net a)
  run_title (search_entities a b) = discard (Titles.search_entities net a b)
  run_title get_lists_sitemap = discard (Titles.get_lists_sitemap net)
  run_title get_battles_sitemap = discard (Titles.get_battles_sitemap net)
  run_title get_entity_sitemap_counts = discard (Titles.get_entity_sitemap_counts net)
  run_title (get_entity_sitemap_page a b c) = discard (Titles.get_entity_sitemap_page net a b c)

module _ {S J : Type 0} (net : Net S J) where
  unless_blank-Sends :
      (trimmed q : Text) (type : Option Text)
      → Sends IsShareable (Titles.unless_blank (logged net) trimmed q type)
  unless_blank-Sends [] q type = settle-Sends IsShareable net _
  unless_blank-Sends (c ∷ s) q type = read_plain-Sends net _ _ _

module _ {S J : Type 0} (net : Net S J) where
  pub run_title-Sends : (call : TitleCall J) → Sends IsShareable (run_title (logged net) call)
  unfolding run_title Titles.get_top_movies Titles.get_movie_by_slug Titles.get_top_tv_series
      Titles.get_tv_series_by_slug Titles.get_person_by_slug Titles.get_genre_by_slug
      Titles.get_track_by_slug Titles.get_related_entities Titles.get_movie_rankings
      Titles.get_tv_series_rankings Titles.get_entity_comments Titles.get_people_page
      Titles.get_rankings_page Titles.get_ego_graph Titles.get_hero_graphs Titles.search_entities
      Titles.get_lists_sitemap Titles.get_battles_sitemap Titles.get_entity_sitemap_counts
      Titles.get_entity_sitemap_page
  run_title-Sends (get_top_movies a) = discard-Sends net _ (fetch_envelope-Sends net _ _ _)
  run_title-Sends (get_movie_by_slug a) = discard-Sends net _ (fetch_envelope-Sends net _ _ _)
  run_title-Sends (get_top_tv_series a) = discard-Sends net _ (fetch_envelope-Sends net _ _ _)
  run_title-Sends (get_tv_series_by_slug a) = discard-Sends net _ (fetch_envelope-Sends net _ _ _)
  run_title-Sends (get_person_by_slug a) = discard-Sends net _ (fetch_envelope-Sends net _ _ _)
  run_title-Sends (get_genre_by_slug a) = discard-Sends net _ (fetch_envelope-Sends net _ _ _)
  run_title-Sends (get_track_by_slug a) = discard-Sends net _ (fetch_envelope-Sends net _ _ _)
  run_title-Sends (get_related_entities a b) = discard-Sends net _ (fetch_envelope-Sends net _ _ _)
  run_title-Sends (get_movie_rankings a) = discard-Sends net _ (fetch_envelope-Sends net _ _ _)
  run_title-Sends (get_tv_series_rankings a) = discard-Sends net _ (fetch_envelope-Sends net _ _ _)
  run_title-Sends (get_entity_comments a) = discard-Sends net _ (fetch_envelope-Sends net _ _ _)
  run_title-Sends (get_people_page a) = discard-Sends net _ (read_timed-Sends net _ _ _ _)
  run_title-Sends (get_rankings_page a b c) = discard-Sends net _ (read_timed-Sends net _ _ _ _)
  run_title-Sends (get_ego_graph a) = discard-Sends net _ (fetch_envelope-Sends net _ _ _)
  run_title-Sends (get_hero_graphs a) = discard-Sends net _ (fetch_envelope-Sends net _ _ _)
  run_title-Sends (search_entities a b) = discard-Sends net _ (unless_blank-Sends net (trim a) a b)
  run_title-Sends get_lists_sitemap = discard-Sends net _ (fetch_envelope-Sends net _ _ _)
  run_title-Sends get_battles_sitemap = discard-Sends net _ (fetch_envelope-Sends net _ _ _)
  run_title-Sends get_entity_sitemap_counts = discard-Sends net _ (fetch_envelope-Sends net _ _ _)
  run_title-Sends (get_entity_sitemap_page a b c) =
      discard-Sends net _ (fetch_envelope-Sends net _ _ _)
