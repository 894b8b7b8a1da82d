-- ===== src/Home/Clusters/Grouped.antt =====
-- What frontend/lib/home-data.ts puts into the groups of the ranked titles.
use mathlib.Core.List.{append-nil, append_assoc}
use rank_verse.Base.{
  true, false, String, List, [], ◌∷◌, ◌++◌, Ordering, str_eq, eq_iff, if◌then◌else◌, ◌≡◌, refl, ap,
  sym, ◌∙◌, arith, All, Bool-cases, inl, inr,
}
use rank_verse.Base.Apart.{IsOther, AreApart, append-AreApart}
use rank_verse.Base.Text.{str_eq-false}
use rank_verse.Base.Sort.{sort-All}
use rank_verse.Home.Clusters.{
  GenreRef, HomeTitle, GenreCluster, has_cluster, push, put_title, put_genres, put_titles,
  cluster_le, cluster_by_genre, carried, carriers,
}

abbrev pub titles_of : String → List GenreCluster → List HomeTitle
titles_of slug [] = []
titles_of slug (c ∷ clusters) =
    let later = titles_of slug clusters in if str_eq c.slug slug then c.titles else later

titles_of-push :
    (slug : String) (t : HomeTitle) (clusters : List GenreCluster)
    → has_cluster slug clusters ≡ true
    → titles_of slug (push slug t clusters) ≡ titles_of slug clusters ++ t ∷ []
titles_of-push slug t [] h = cc
titles_of-push slug t (c ∷ clusters) h = elim (Bool-cases (str_eq c.slug slug)) [
  | inl e ↦ rw (e, e) refl
  | inr e ↦ rw (e, e) (titles_of-push slug t clusters (ground arith))
]

titles_of-push_other :
    (slug k : String) (t : HomeTitle) (clusters : List GenreCluster)
    → str_eq slug k ≡ false
    → titles_of k (push slug t clusters) ≡ titles_of k clusters
titles_of-push_other slug k t [] h = refl
titles_of-push_other slug k t (c ∷ clusters) h = elim (Bool-cases (str_eq c.slug slug)) [
  | inl e ↦
      let other : str_eq c.slug k ≡ false = rw ((eq_iff c.slug slug).0 e) h in rw (e, other) refl
  | inr e ↦ elim (Bool-cases (str_eq c.slug k)) [
    | inl f ↦ rw (e, f) refl
    | inr f ↦ rw (e, f) (titles_of-push_other slug k t clusters h)
  ]
]

pub titles_of-missing :
    (k : String) (clusters : List GenreCluster)
    → has_cluster k clusters ≡ false
    → titles_of k clusters ≡ []
titles_of-missing k [] h = refl
titles_of-missing k (c ∷ clusters) h = elim (Bool-cases (str_eq c.slug k)) [
  | inl e ↦ absurd (ground arith)
  | inr e ↦ rw e (titles_of-missing k clusters (ground arith))
]

titles_of-new :
    (k : String) (clusters : List GenreCluster) (c : GenreCluster)
    → has_cluster k clusters ≡ false
    → str_eq c.slug k ≡ true
    → titles_of k (clusters ++ c ∷ []) ≡ c.titles
titles_of-new k [] c h e = rw e refl
titles_of-new k (d ∷ clusters) c h e = elim (Bool-cases (str_eq d.slug k)) [
  | inl f ↦ absurd (ground arith)
  | inr f ↦ rw f (titles_of-new k clusters c (ground arith) e)
]

titles_of-other :
    (k : String) (clusters : List GenreCluster) (c : GenreCluster)
    → str_eq c.slug k ≡ false
    → titles_of k (clusters ++ c ∷ []) ≡ titles_of k clusters
titles_of-other k [] c e = rw e refl
titles_of-other k (d ∷ clusters) c e = elim (Bool-cases (str_eq d.slug k)) [
  | inl f ↦ rw f refl
  | inr f ↦ rw f (titles_of-other k clusters c e)
]

-- One title more for one genre.
put_title-same :
    (k : String) (t : HomeTitle) (g : GenreRef) (clusters : List GenreCluster)
    → str_eq g.slug k ≡ true
    → titles_of k (put_title t g clusters) ≡ titles_of k clusters ++ t ∷ []
unfolding put_title
put_title-same k t g clusters e =
    let same = (eq_iff g.slug k).0 e in
    elim (Bool-cases (has_cluster g.slug clusters)) [
      | inl f ↦ rw⁻¹ same (rw f (titles_of-push g.slug t clusters f))
      | inr f ↦
          let missing : has_cluster k clusters ≡ false = rw⁻¹ same f in
          rw (f, titles_of-missing k clusters missing) (titles_of-new k clusters _ missing e)
    ]

put_title-other :
    (k : String) (t : HomeTitle) (g : GenreRef) (clusters : List GenreCluster)
    → str_eq g.slug k ≡ false
    → titles_of k (put_title t g clusters) ≡ titles_of k clusters
unfolding put_title
put_title-other k t g clusters e = elim (Bool-cases (has_cluster g.slug clusters)) [
  | inl f ↦ rw f (titles_of-push_other g.slug k t clusters e)
  | inr f ↦ rw f (titles_of-other k clusters _ e)
]

titles_of-put_genres :
    (k : String) (t : HomeTitle) (gs : List GenreRef) (clusters : List GenreCluster)
    → titles_of k (put_genres t gs clusters) ≡ titles_of k clusters ++ carried k t gs
unfolding put_genres
titles_of-put_genres k t [] clusters = sym (append-nil (titles_of k clusters))
titles_of-put_genres k t (g ∷ gs) clusters = elim (Bool-cases (str_eq g.slug k)) [
  | inl e ↦ rw e (
      titles_of-put_genres k t gs (put_title t g clusters)
      ∙ ap (λ r. r ++ carried k t gs) (put_title-same k t g clusters e)
      ∙ append_assoc (titles_of k clusters) (t ∷ []) (carried k t gs))
  | inr e ↦ rw e (
      titles_of-put_genres k t gs (put_title t g clusters)
      ∙ ap (λ r. r ++ carried k t gs) (put_title-other k t g clusters e))
]

pub titles_of-put_titles :
    (k : String) (ts : List HomeTitle) (clusters : List GenreCluster)
    → titles_of k (put_titles ts clusters) ≡ titles_of k clusters ++ carriers k ts
unfolding put_titles
titles_of-put_titles k [] clusters = sym (append-nil (titles_of k clusters))
titles_of-put_titles k (t ∷ ts) clusters =
    titles_of-put_titles k ts (put_genres t t.genres clusters)
    ∙ ap (λ r. r ++ carriers k ts) (titles_of-put_genres k t t.genres clusters)
    ∙ append_assoc (titles_of k clusters) (carried k t t.genres) (carriers k ts)

abbrev pub cluster_slug : GenreCluster → String
cluster_slug c = c.slug

push-IsOther :
    (k slug : String) (t : HomeTitle) (clusters : List GenreCluster)
    → IsOther cluster_slug k clusters
    → IsOther cluster_slug k (push slug t clusters)
push-IsOther k slug t [] h = tt
push-IsOther k slug t (c ∷ clusters) h = elim (Bool-cases (str_eq c.slug slug)) [
  | inl e ↦ rw e (h.0, h.1)
  | inr e ↦ rw e (h.0, push-IsOther k slug t clusters h.1)
]

push-AreApart :
    (slug : String) (t : HomeTitle) (clusters : List GenreCluster)
    → AreApart cluster_slug clusters
    → AreApart cluster_slug (push slug t clusters)
push-AreApart slug t [] a = tt
push-AreApart slug t (c ∷ clusters) a = elim (Bool-cases (str_eq c.slug slug)) [
  | inl e ↦ rw e (a.0, a.1)
  | inr e ↦ rw e (push-IsOther c.slug slug t clusters a.0, push-AreApart slug t clusters a.1)
]

put_genres-AreApart :
    (t : HomeTitle) (gs : List GenreRef) (clusters : List GenreCluster)
    → AreApart cluster_slug clusters
    → AreApart cluster_slug (put_genres t gs clusters)
unfolding put_genres put_title
put_genres-AreApart t [] clusters a = a
put_genres-AreApart t (g ∷ gs) clusters a = elim (Bool-cases (has_cluster g.slug clusters)) [
  | inl e ↦ rw e (put_genres-AreApart t gs _ (push-AreApart g.slug t clusters a))
  | inr e ↦ rw e (put_genres-AreApart t gs _ (append-AreApart cluster_slug clusters _ e a))
]

pub put_titles-AreApart :
    (ts : List HomeTitle) (clusters : List GenreCluster)
    → AreApart cluster_slug clusters
    → AreApart cluster_slug (put_titles ts clusters)
unfolding put_titles
put_titles-AreApart [] clusters a = a
put_titles-AreApart (t ∷ ts) clusters a =
    put_titles-AreApart ts _ (put_genres-AreApart t t.genres clusters a)

member-shift :
    (c : GenreCluster) (all part : List GenreCluster)
    → IsOther cluster_slug c.slug part
    → All (λ d. titles_of d.slug all ≡ d.titles) part
    → All (λ d. titles_of d.slug (c ∷ all) ≡ d.titles) part
member-shift c all [] h m = tt
member-shift c all (d ∷ part) h m =
    (rw (str_eq-false d.slug c.slug h.0) m.0, member-shift c all part h.1 m.1)

-- Where slugs differ, a group is what is found under its slug.
members :
    (clusters : List GenreCluster)
    → AreApart cluster_slug clusters
    → All (λ d. titles_of d.slug clusters ≡ d.titles) clusters
members [] a = tt
members (c ∷ clusters) a = (
  rw ((eq_iff c.slug c.slug).1 refl) refl,
  member-shift c clusters clusters a.0 (members clusters a.1),
)

abbrev pub IsGroupOf : List HomeTitle → GenreCluster → Type 0
IsGroupOf titles c = c.titles ≡ carriers c.slug titles

members-IsGroupOf :
    (titles : List HomeTitle) (all part : List GenreCluster)
    → ((k : String) → titles_of k all ≡ carriers k titles)
    → All (λ d. titles_of d.slug all ≡ d.titles) part
    → All (IsGroupOf titles) part
members-IsGroupOf titles all [] h m = tt
members-IsGroupOf titles all (c ∷ part) h m =
    (sym m.0 ∙ h c.slug, members-IsGroupOf titles all part h m.1)

pub cluster_by_genre-All :
    (locale_compare : String → String → Ordering) (titles : List HomeTitle)
    → All (IsGroupOf titles) (cluster_by_genre locale_compare titles)
unfolding cluster_by_genre
cluster_by_genre-All locale_compare titles =
    let all = put_titles titles [] in
    let found = members all (put_titles-AreApart titles [] tt) in
    sort-All (cluster_le locale_compare) (IsGroupOf titles) all
      (members-IsGroupOf titles all all (λ k. titles_of-put_titles k titles []) found)
