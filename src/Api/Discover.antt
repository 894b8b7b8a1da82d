-- ===== src/Api/Discover.antt =====
-- `discoverLists` and `discoverListsPage` of frontend/lib/api.ts build one query in two ways.
use rank_verse.Base.{
  ℕ, ◌≡◌, ◌≢◌, refl, ap, Bool-cases, Option, none, some, List, [], ◌∷◌, inl, inr, ◌==◌, ==_iff,
}
use rank_verse.Base.Text.{Text, codes}
use rank_verse.Labels.Digits.Laws.{decimal-cons}
use rank_verse.Labels.Digits.{decimal}
use rank_verse.Api.Client.{
  Net, World, Result, ok, err, ◌>>=◌, settle, and_then, Query, set_text, set_number, fetch_envelope,
}
use rank_verse.Api.Titles.{Page, to_page}
use rank_verse.Api.Lists.{
  ListFilter, list_query, entries_query, discover_lists, discover_lists_page,
}

-- A number as the page's caller gives it.
abbrev pub written : Option ℕ → Option Text
written none = none
written (some n) = some (decimal n)

set_number-eq :
    (key : Text) (o : Option ℕ) (q : Query)
    → o ≢ some 0
    → set_number key o q ≡ set_text key (written o) q
unfolding set_number set_text
set_number-eq key none q h = refl
set_number-eq key (some n) q h =
    let (d, r, e) = decimal-cons n in
    elim (Bool-cases (n == 0)) [
      | inl b ↦ absurd (h (ap some ((==_iff n 0).0 b)))
      | inr b ↦ rw b (rw e refl)
    ]

-- The pairs of the parameters, in the order of their type.
abbrev pub entries : ListFilter → List (Text × Option Text)
entries f =
    (codes "page", written f.page)
    ∷ (codes "page_size", written f.page_size)
    ∷ (codes "entity_type", f.entity_type)
    ∷ (codes "tag", f.tag)
    ∷ (codes "sort", f.sort)
    ∷ (codes "q", f.q)
    ∷ []

list_query-eq-entries :
    (f : ListFilter)
    → f.page ≢ some 0
    → f.page_size ≢ some 0
    → list_query f ≡ entries_query (entries f) []
unfolding entries_query
list_query-eq-entries f hp hs = rw (
  set_number-eq (codes "page") f.page [] hp,
  set_number-eq (codes "page_size") f.page_size (set_text (codes "page") (written f.page) []) hs,
)

abbrev pub items_of : {J : Type 0} → Result (Page J) → Result J
items_of (ok page) = ok page.items
items_of (err e) = err e

module _ {S J : Type 0} (net : Net S J) where
  items-envelope :
      (r : Result J × World S)
      → (items_of (and_then r (λ json. settle (ok (to_page net json)))).0
          ≡ (and_then r (λ json. settle (ok (net.contents json)))).0)
        × ((and_then r (λ json. settle (ok (to_page net json)))).1
            ≡ (and_then r (λ json. settle (ok (net.contents json)))).1)
  unfolding settle
  items-envelope (ok json, w) = (refl, refl)
  items-envelope (err e, w) = (refl, refl)

  -- A page of lists has the lists that `discoverLists` finds under the same parameters, both leave the
  -- world alike, and both fail alike, as long as page and page size, where given, are not 0 (which one
  -- leaves out of the query and the other does not).
  discover_lists_page-agrees :
      (f : ListFilter) (seconds : ℕ) (tags : List Text) (w : World S)
      → f.page ≢ some 0
      → f.page_size ≢ some 0
      → (items_of (discover_lists_page net (entries f) seconds tags w).0
          ≡ (discover_lists net f seconds tags w).0)
        × ((discover_lists_page net (entries f) seconds tags w).1
            ≡ (discover_lists net f seconds tags w).1)
  unfolding discover_lists_page discover_lists fetch_envelope ◌>>=◌
  discover_lists_page-agrees f seconds tags w hp hs =
      rw (list_query-eq-entries f hp hs) (items-envelope _)
