-- ===== src/Api/Lists.antt =====
-- frontend/lib/api.ts: the reads and writes of lists.
use rank_verse.Base.Text.{Text, codes}
use rank_verse.Base.{ℕ, String, Bool, Option, none, some, List, [], ◌∷◌, ◌++◌}
use rank_verse.Labels.Digits.{decimal}
use rank_verse.Api.Client.{
  Net, Client, Query, no_store, revalidate, settle, ok, ◌>>=◌, set_text, set_number, fetch_envelope,
  fetch_full_envelope, fetch_with_timeout, open_envelope, plain, public_get, accept_envelope,
  auth_fetch, encode_list_slug, truthy, payload, object, flag, texts,
}
use rank_verse.Api.Titles.{detail_ttl, community_ttl, Page, to_page}

-- `sort`, which the type limits to two texts, is a text.
pub record ListFilter : Type 0 where
  pub page : Option ℕ
  pub page_size : Option ℕ
  pub entity_type : Option Text
  pub tag : Option Text
  pub sort : Option Text
  pub q : Option Text

abbrev pub list_query : ListFilter → Query
list_query f = set_text (codes "q") f.q (
    set_text (codes "sort") f.sort (
      set_text (codes "tag") f.tag (
        set_text (codes "entity_type") f.entity_type
          (set_number (codes "page_size") f.page_size (set_number (codes "page") f.page [])))))

-- `Object.entries` of the parameters, in the order in which the caller wrote them: `undefined` and ""
-- are left out. A number is given by its decimal text.
unfoldable pub entries_query : List (Text × Option Text) → Query → Query
entries_query [] q = q
entries_query ((key, value) ∷ entries) q = entries_query entries (set_text key value q)

abbrev pub lists_cache_tag : Text
lists_cache_tag = codes "lists"

abbrev pub lists_page_size : ℕ
lists_page_size = 6

module _ {S J : Type 0} (net : Net S J) where
  unfoldable pub discover_lists : ListFilter → ℕ → List Text → Client S J
  discover_lists params seconds tags =
      fetch_envelope net (codes "/lists?" ++ net.query (list_query params)) seconds tags

  unfoldable pub discover_lists_page : List (Text × Option Text) → ℕ → List Text → Client S (Page J)
  discover_lists_page params seconds tags = do
    json ←
        fetch_full_envelope net (codes "/lists?" ++ net.query (entries_query params [])) seconds
          tags
    settle (ok (to_page net json))

  unfoldable pub get_lists_total : ℕ → Client S (Option ℕ)
  get_lists_total seconds = do
    let path = codes "/lists?page_size=1"
    res ← fetch_with_timeout net path (revalidate seconds (lists_cache_tag ∷ []))
    json ← settle (open_envelope net path res)
    settle (ok (net.total json))

  unfoldable pub get_battles_total : ℕ → Client S (Option ℕ)
  get_battles_total seconds = do
    let path = codes "/battles?page_size=1"
    res ← fetch_with_timeout net path (revalidate seconds [])
    json ← settle (open_envelope net path res)
    settle (ok (net.total json))

  unfoldable pub get_featured_lists : ℕ → ℕ → Client S J
  get_featured_lists limit seconds =
      fetch_envelope net (codes "/lists/featured?limit=" ++ decimal limit) seconds
        (lists_cache_tag ∷ [])

  -- A read without a token that is never kept.
  abbrev pub read_fresh : Text → Text → Client S J
  read_fresh path other = do
    res ← plain net (public_get net path no_store)
    json ← settle (accept_envelope net other res)
    settle (ok (net.contents json))

  abbrev list_path : Text → Text
  list_path slug = codes "/lists/" ++ encode_list_slug net slug

  abbrev pub list_by_token : Text → Option String → Client S J
  list_by_token slug none = read_fresh (list_path slug) (codes "Failed to fetch list")
  list_by_token slug (some token) = auth_fetch net (list_path slug) token (codes "GET") none

  unfoldable pub get_list_by_slug : Text → Option String → Client S J
  get_list_by_slug slug token = list_by_token slug (truthy token)

  unfoldable pub get_list_by_slug_cached : Text → ℕ → Client S J
  get_list_by_slug_cached slug seconds =
      fetch_envelope net (list_path slug) seconds (lists_cache_tag ∷ [])

  unfoldable pub get_list_comments : Text → Client S J
  get_list_comments slug = fetch_envelope net (list_path slug ++ codes "/comments") 0 []

  unfoldable pub get_related_lists : Text → Client S J
  get_related_lists slug = fetch_envelope net (list_path slug ++ codes "/related") community_ttl []

  unfoldable pub get_lists_containing_entity : Text → Client S J
  get_lists_containing_entity entity_id =
      fetch_envelope net (codes "/lists/for-entity/" ++ entity_id) detail_ttl []

  unfoldable pub get_list_suggestions : Text → ℕ → Client S J
  get_list_suggestions list_id limit =
      read_fresh (codes "/lists/" ++ list_id ++ codes "/suggestions?limit=" ++ decimal limit)
        (codes "Failed to fetch suggestions")

  unfoldable pub get_similar_lists : Text → Client S J
  get_similar_lists title =
      read_fresh (codes "/lists/similar?title=" ++ net.encode title)
        (codes "Failed to fetch similar lists")

  unfoldable pub create_list : String → J → Client S J
  create_list token json =
      auth_fetch net (codes "/lists") token (codes "POST") (some (payload json))

  unfoldable pub update_list : String → Text → J → Client S J
  update_list token slug json =
      auth_fetch net (list_path slug) token (codes "PUT") (some (payload json))

  unfoldable pub delete_list : String → Text → Client S J
  delete_list token slug = auth_fetch net (list_path slug) token (codes "DELETE") none

  unfoldable pub get_my_lists : String → Client S J
  get_my_lists token = auth_fetch net (codes "/users/me/lists") token (codes "GET") none

  unfoldable pub add_list_item : String → Text → J → Client S J
  add_list_item token slug json =
      auth_fetch net (list_path slug ++ codes "/items") token (codes "POST") (some (payload json))

  unfoldable pub get_list_candidates : String → Text → Text → ℕ → Client S J
  get_list_candidates token slug q limit =
      auth_fetch net
        (list_path slug
          ++ codes "/candidates?"
          ++ net.query ((codes "q", q) ∷ (codes "limit", decimal limit) ∷ []))
        token (codes "GET") none

  unfoldable pub remove_list_item : String → Text → Text → Client S J
  remove_list_item token slug item_id =
      auth_fetch net (list_path slug ++ codes "/items/" ++ item_id) token (codes "DELETE") none

  unfoldable pub reorder_list_items : String → Text → List Text → Client S J
  reorder_list_items token slug item_ids =
      auth_fetch net (list_path slug ++ codes "/reorder") token (codes "PUT")
        (some (object ((codes "item_ids", texts item_ids) ∷ [])))

  unfoldable pub vote_list_item : String → Text → Text → Bool → Client S J
  vote_list_item token slug item_id is_like =
      auth_fetch net (list_path slug ++ codes "/items/" ++ item_id ++ codes "/like") token
        (codes "POST") (some (object ((codes "is_like", flag is_like) ∷ [])))

  unfoldable pub remove_list_item_vote : String → Text → Text → Client S J
  remove_list_item_vote token slug item_id =
      auth_fetch net (list_path slug ++ codes "/items/" ++ item_id ++ codes "/like") token
        (codes "DELETE") none

  unfoldable pub toggle_list_like : String → Text → Client S J
  toggle_list_like token slug =
      auth_fetch net (list_path slug ++ codes "/like") token (codes "POST") none

  unfoldable pub toggle_list_follow : String → Text → Client S J
  toggle_list_follow token slug =
      auth_fetch net (list_path slug ++ codes "/follow") token (codes "POST") none

  unfoldable pub add_list_comment : String → Text → J → Client S J
  add_list_comment token slug json =
      auth_fetch net (list_path slug ++ codes "/comments") token (codes "POST")
        (some (payload json))

  unfoldable pub delete_list_comment : String → Text → Text → Client S J
  delete_list_comment token slug comment_id =
      auth_fetch net (list_path slug ++ codes "/comments/" ++ comment_id) token (codes "DELETE")
        none
