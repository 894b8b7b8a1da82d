-- ===== src/Home/Clusters.antt =====
-- frontend/lib/home-data.ts: the ranked titles of the home page grouped by genre.
pub mod Grouped
pub mod Complete
use rank_verse.Base.{
  ℕ, Bool, String, List, [], ◌∷◌, ◌++◌, length, compare, Ordering, str_eq, if◌then◌else◌, or_else,
  not_after,
}
use rank_verse.Base.Keep.{some_of}
use rank_verse.Base.Sort.{sort}

pub record GenreRef : Type 0 where
  pub slug : String
  pub title : String

-- The fields that the grouping reads or carries.
pub record HomeTitle : Type 0 where
  pub id : String
  pub slug : String
  pub title : String
  pub rank : ℕ
  pub genres : List GenreRef

pub record GenreCluster : Type 0 where
  pub slug : String
  pub title : String
  pub titles : List HomeTitle

abbrev pub has_cluster : String → List GenreCluster → Bool
has_cluster slug clusters = some_of (λ c. str_eq c.slug slug) clusters

abbrev pub push : String → HomeTitle → List GenreCluster → List GenreCluster
push slug t [] = []
push slug t (c ∷ clusters) =
    let here = record c { titles = c.titles ++ t ∷ [] } ∷ clusters in
    let later = c ∷ push slug t clusters in if str_eq c.slug slug then here else later

-- `map.get(g.slug) ?? { … }`, the push and `map.set`; a `Map` keeps the order of insertion.
unfoldable pub put_title : HomeTitle → GenreRef → List GenreCluster → List GenreCluster
put_title t g clusters =
    if has_cluster g.slug clusters
    then push g.slug t clusters
    else clusters ++ record { slug = g.slug; title = g.title; titles = t ∷ [] } ∷ []

unfoldable pub put_genres : HomeTitle → List GenreRef → List GenreCluster → List GenreCluster
unfolding put_title
put_genres t [] clusters = clusters
put_genres t (g ∷ gs) clusters = put_genres t gs (put_title t g clusters)

unfoldable pub put_titles : List HomeTitle → List GenreCluster → List GenreCluster
unfolding put_genres
put_titles [] clusters = clusters
put_titles (t ∷ ts) clusters = put_titles ts (put_genres t t.genres clusters)

-- `b.titles.length - a.titles.length || a.title.localeCompare(b.title)` is not positive.
abbrev pub cluster_le : (String → String → Ordering) → GenreCluster → GenreCluster → Bool
cluster_le locale_compare a b =
    not_after
      (or_else (compare (length b.titles) (length a.titles)) (locale_compare a.title b.title))

unfoldable pub cluster_by_genre : (String → String → Ordering) → List HomeTitle → List GenreCluster
unfolding put_titles
cluster_by_genre locale_compare titles = sort (cluster_le locale_compare) (put_titles titles [])

-- A title once for each of its genres of this slug.
abbrev pub carried : String → HomeTitle → List GenreRef → List HomeTitle
carried slug t [] = []
carried slug t (g ∷ gs) =
    let rest = carried slug t gs in if str_eq g.slug slug then t ∷ rest else rest

-- The titles that carry a genre, in their order.
abbrev pub carriers : String → List HomeTitle → List HomeTitle
carriers slug [] = []
carriers slug (t ∷ ts) = carried slug t t.genres ++ carriers slug ts
