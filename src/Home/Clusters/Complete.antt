-- ===== src/Home/Clusters/Complete.antt =====
-- That the groups of frontend/lib/home-data.ts leave out no genre and repeat none.
use rank_verse.Base.{
  Bool, true, false, String, List, [], ◌∷◌, ◌++◌, Ordering, str_eq, ◌≡◌, refl, ap, sym, ◌∙◌, All,
  Bool-cases, inl, inr,
}
use rank_verse.Base.Apart.{AreApart, sort-AreApart}
use rank_verse.Base.Sort.{some_of-sort}
use rank_verse.Home.Clusters.{
  GenreRef, HomeTitle, GenreCluster, has_cluster, push, put_title, put_genres, put_titles,
  cluster_le, cluster_by_genre, carriers,
}
use rank_verse.Home.Clusters.Grouped.{
  titles_of, titles_of-put_titles, cluster_slug, put_titles-AreApart, IsGroupOf,
  cluster_by_genre-All,
}

abbrev pub is_cons : List HomeTitle → Bool
is_cons [] = false
is_cons (t ∷ ts) = true

abbrev IsFilled : GenreCluster → Type 0
IsFilled c = is_cons c.titles ≡ true

is_cons-append : (ts : List HomeTitle) (t : HomeTitle) → is_cons (ts ++ t ∷ []) ≡ true
is_cons-append [] t = refl
is_cons-append (u ∷ ts) t = refl

push-All :
    (slug : String) (t : HomeTitle) (clusters : List GenreCluster)
    → All IsFilled clusters
    → All IsFilled (push slug t clusters)
push-All slug t [] h = tt
push-All slug t (c ∷ clusters) h = elim (Bool-cases (str_eq c.slug slug)) [
  | inl e ↦ rw e (is_cons-append c.titles t, h.1)
  | inr e ↦ rw e (h.0, push-All slug t clusters h.1)
]

append-All :
    (clusters : List GenreCluster) (c : GenreCluster)
    → All IsFilled clusters
    → IsFilled c
    → All IsFilled (clusters ++ c ∷ [])
append-All [] c h f = (f, tt)
append-All (d ∷ clusters) c h f = (h.0, append-All clusters c h.1 f)

put_genres-All :
    (t : HomeTitle) (gs : List GenreRef) (clusters : List GenreCluster)
    → All IsFilled clusters
    → All IsFilled (put_genres t gs clusters)
unfolding put_genres put_title
put_genres-All t [] clusters h = h
put_genres-All t (g ∷ gs) clusters h = elim (Bool-cases (has_cluster g.slug clusters)) [
  | inl e ↦ rw e (put_genres-All t gs _ (push-All g.slug t clusters h))
  | inr e ↦ rw e (put_genres-All t gs _ (append-All clusters _ h refl))
]

put_titles-All :
    (ts : List HomeTitle) (clusters : List GenreCluster)
    → All IsFilled clusters
    → All IsFilled (put_titles ts clusters)
unfolding put_titles
put_titles-All [] clusters h = h
put_titles-All (t ∷ ts) clusters h = put_titles-All ts _ (put_genres-All t t.genres clusters h)

has_cluster-titles_of :
    (k : String) (clusters : List GenreCluster)
    → All IsFilled clusters
    → has_cluster k clusters ≡ is_cons (titles_of k clusters)
has_cluster-titles_of k [] h = refl
has_cluster-titles_of k (c ∷ clusters) h = elim (Bool-cases (str_eq c.slug k)) [
  | inl e ↦ rw e (sym h.0)
  | inr e ↦ rw e (has_cluster-titles_of k clusters h.1)
]

-- `clusterByGenre` makes one group for each genre that a title carries, and no other: no two groups have
-- one genre, a genre has a group exactly where some title carries it, and each group holds exactly the
-- titles that carry its genre, in their order.
pub cluster_by_genre-AreGroups :
    (locale_compare : String → String → Ordering) (titles : List HomeTitle)
    → AreApart cluster_slug (cluster_by_genre locale_compare titles)
      × ((k : String)
          → has_cluster k (cluster_by_genre locale_compare titles) ≡ is_cons (carriers k titles))
      × All (IsGroupOf titles) (cluster_by_genre locale_compare titles)
unfolding cluster_by_genre
cluster_by_genre-AreGroups locale_compare titles =
    let all = put_titles titles [] in
    let le = cluster_le locale_compare in
    (
      sort-AreApart cluster_slug le all (put_titles-AreApart titles [] tt),
      λ k.
          some_of-sort le (λ c. str_eq c.slug k) all
          ∙ has_cluster-titles_of k all (put_titles-All titles [] tt)
          ∙ ap is_cons (titles_of-put_titles k titles []),
      cluster_by_genre-All locale_compare titles,
    )
