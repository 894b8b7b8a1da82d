-- ===== src/Home/Tests.antt =====
-- The home page's data at concrete inputs.
use mathlib.Core.List.{map}
use rank_verse.Base.{ℕ, List, [], ◌∷◌, ◌≡◌, refl, String, Ordering, All}
use rank_verse.Base.Text.{codes}
use rank_verse.Home.Shuffle.{shuffle}
use rank_verse.Home.Clusters.{HomeTitle, cluster_by_genre, has_cluster, carriers}
use rank_verse.Home.Clusters.Grouped.{IsGroupOf, cluster_slug}
use rank_verse.Home.Clusters.Complete.{is_cons, cluster_by_genre-AreGroups}
use rank_verse.Base.Apart.{AreApart}
use rank_verse.Home.Graph.{action_for_node, navigate}

abbrev three : List ℕ
three = 1 ∷ 2 ∷ 3 ∷ []

shuffled : shuffle (λ i. 0) three ≡ 2 ∷ 3 ∷ 1 ∷ []
unfolding shuffle
shuffled = refl

abbrev a_title : String → List String → HomeTitle
a_title slug genres = record {
  id = slug;
  slug = slug;
  title = slug;
  rank = 1;
  genres = map (λ g. record { slug = g; title = g }) genres;
}

abbrev titles : List HomeTitle
titles = a_title "x" ("drama" ∷ []) ∷ a_title "y" ("war" ∷ "drama" ∷ []) ∷ []

cluster_by_genre-AreGroups_example :
    AreApart cluster_slug (cluster_by_genre (λ a b. Ordering.eq) titles)
    × ((k : String)
        → has_cluster k (cluster_by_genre (λ a b. Ordering.eq) titles)
          ≡ is_cons (carriers k titles))
    × All (IsGroupOf titles) (cluster_by_genre (λ a b. Ordering.eq) titles)
cluster_by_genre-AreGroups_example = cluster_by_genre-AreGroups (λ a b. Ordering.eq) titles

a_track :
    action_for_node
      (record { id = "1"; slug = codes "s"; title = ""; entity_type = "track"; credits = [] })
      "2"
    ≡ navigate (codes "/track/s")
unfolding action_for_node
a_track = refl
