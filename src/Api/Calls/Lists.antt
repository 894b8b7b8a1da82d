-- ===== src/Api/Calls/Lists.antt =====
-- The calls of frontend/lib/api.ts in Api/Lists as data, and that none of them asks for an answer to be kept with a
-- token.
use rank_verse.Base.{ℕ, String, Bool, Option, none, some, List}
use rank_verse.Base.Text.{Text}
use rank_verse.Api.Client.{truthy, Net, Client}
use rank_verse.Api.Sends.{logged, Sends}
use rank_verse.Api.Private.{
  read_timed-Sends, read_plain-Sends, IsShareable, discard, discard-Sends, then_settle,
  fetch_envelope-Sends, fetch_full_envelope-Sends, auth_fetch-Sends,
}
use rank_verse.Api.Lists
use rank_verse.Api.Lists.{ListFilter}

pub data ListCall (J : Type 0) : Type 0 where
  discover_lists : ListFilter → ℕ → List Text → ListCall J
  discover_lists_page : List (Text × Option Text) → ℕ → List Text → ListCall J
  get_lists_total : ℕ → ListCall J
  get_battles_total : ℕ → ListCall J
  get_featured_lists : ℕ → ℕ → ListCall J
  get_list_by_slug : Text → Option String → ListCall J
  get_list_by_slug_cached : Text → ℕ → ListCall J
  get_list_comments : Text → ListCall J
  get_related_lists : Text → ListCall J
  get_lists_containing_entity : Text → ListCall J
  get_list_suggestions : Text → ℕ → ListCall J
  get_similar_lists : Text → ListCall J
  create_list : String → J → ListCall J
  update_list : String → Text → J → ListCall J
  delete_list : String → Text → ListCall J
  get_my_lists : String → ListCall J
  add_list_item : String → Text → J → ListCall J
  get_list_candidates : String → Text → Text → ℕ → ListCall J
  remove_list_item : String → Text → Text → ListCall J
  reorder_list_items : String → Text → List Text → ListCall J
  vote_list_item : String → Text → Text → Bool → ListCall J
  remove_list_item_vote : String → Text → Text → ListCall J
  toggle_list_like : String → Text → ListCall J
  toggle_list_follow : String → Text → ListCall J
  add_list_comment : String → Text → J → ListCall J
  delete_list_comment : String → Text → Text → ListCall J

module _ {S J : Type 0} (net : Net S J) where
  unfoldable pub run_list : ListCall J → Client S (Unit {0})
  run_list (discover_lists a b c) = discard (Lists.discover_lists net a b c)
  run_list (discover_lists_page a b c) = discard (Lists.discover_lists_page net a b c)
  run_list (get_lists_total a) = discard (Lists.get_lists_total net a)
  run_list (get_battles_total a) = discard (Lists.get_battles_total net a)
  run_list (get_featured_lists a b) = discard (Lists.get_featured_lists net a b)
  run_list (get_list_by_slug a b) = discard (Lists.get_list_by_slug net a b)
  run_list (get_list_by_slug_cached a b) = discard (Lists.get_list_by_slug_cached net a b)
  run_list (get_list_comments a) = discard (Lists.get_list_comments net a)
  run_list (get_related_lists a) = discard (Lists.get_related_lists net a)
  run_list (get_lists_containing_entity a) = discard (Lists.get_lists_containing_entity net a)
  run_list (get_list_suggestions a b) = discard (Lists.get_list_suggestions net a b)
  run_list (get_similar_lists a) = discard (Lists.get_similar_lists net a)
  run_list (create_list a b) = discard (Lists.create_list net a b)
  run_list (update_list a b c) = discard (Lists.update_list net a b c)
  run_list (delete_list a b) = discard (Lists.delete_list net a b)
  run_list (get_my_lists a) = discard (Lists.get_my_lists net a)
  run_list (add_list_item a b c) = discard (Lists.add_list_item net a b c)
  run_list (get_list_candidates a b c d) = discard (Lists.get_list_candidates net a b c d)
  run_list (remove_list_item a b c) = discard (Lists.remove_list_item net a b c)
  run_list (reorder_list_items a b c) = discard (Lists.reorder_list_items net a b c)
  run_list (vote_list_item a b c d) = discard (Lists.vote_list_item net a b c d)
  run_list (remove_list_item_vote a b c) = discard (Lists.remove_list_item_vote net a b c)
  run_list (toggle_list_like a b) = discard (Lists.toggle_list_like net a b)
  run_list (toggle_list_follow a b) = discard (Lists.toggle_list_follow net a b)
  run_list (add_list_comment a b c) = discard (Lists.add_list_comment net a b c)
  run_list (delete_list_comment a b c) = discard (Lists.delete_list_comment net a b c)

module _ {S J : Type 0} (net : Net S J) where
  list_by_token-Sends :
      (slug : Text) (token : Option String)
      → Sends IsShareable (Lists.list_by_token (logged net) slug token)
  list_by_token-Sends slug none = read_plain-Sends net _ _ _
  list_by_token-Sends slug (some token) = auth_fetch-Sends net _ _ _ _

module _ {S J : Type 0} (net : Net S J) where
  pub run_list-Sends : (call : ListCall J) → Sends IsShareable (run_list (logged net) call)
  unfolding run_list Lists.discover_lists Lists.discover_lists_page Lists.get_lists_total
      Lists.get_battles_total Lists.get_featured_lists Lists.get_list_by_slug
      Lists.get_list_by_slug_cached Lists.get_list_comments Lists.get_related_lists
      Lists.get_lists_containing_entity Lists.get_list_suggestions Lists.get_similar_lists
      Lists.create_list Lists.update_list Lists.delete_list Lists.get_my_lists Lists.add_list_item
      Lists.get_list_candidates Lists.remove_list_item Lists.reorder_list_items Lists.vote_list_item
      Lists.remove_list_item_vote Lists.toggle_list_like Lists.toggle_list_follow
      Lists.add_list_comment Lists.delete_list_comment
  run_list-Sends (discover_lists a b c) = discard-Sends net _ (fetch_envelope-Sends net _ _ _)
  run_list-Sends (discover_lists_page a b c) =
      discard-Sends net _ (then_settle net _ _ (fetch_full_envelope-Sends net _ _ _))
  run_list-Sends (get_lists_total a) = discard-Sends net _ (read_timed-Sends net _ _ _ _)
  run_list-Sends (get_battles_total a) = discard-Sends net _ (read_timed-Sends net _ _ _ _)
  run_list-Sends (get_featured_lists a b) = discard-Sends net _ (fetch_envelope-Sends net _ _ _)
  run_list-Sends (get_list_by_slug a b) = discard-Sends net _ (list_by_token-Sends net a (truthy b))
  run_list-Sends (get_list_by_slug_cached a b) =
      discard-Sends net _ (fetch_envelope-Sends net _ _ _)
  run_list-Sends (get_list_comments a) = discard-Sends net _ (fetch_envelope-Sends net _ _ _)
  run_list-Sends (get_related_lists a) = discard-Sends net _ (fetch_envelope-Sends net _ _ _)
  run_list-Sends (get_lists_containing_entity a) =
      discard-Sends net _ (fetch_envelope-Sends net _ _ _)
  run_list-Sends (get_list_suggestions a b) = discard-Sends net _ (read_plain-Sends net _ _ _)
  run_list-Sends (get_similar_lists a) = discard-Sends net _ (read_plain-Sends net _ _ _)
  run_list-Sends (create_list a b) = discard-Sends net _ (auth_fetch-Sends net _ _ _ _)
  run_list-Sends (update_list a b c) = discard-Sends net _ (auth_fetch-Sends net _ _ _ _)
  run_list-Sends (delete_list a b) = discard-Sends net _ (auth_fetch-Sends net _ _ _ _)
  run_list-Sends (get_my_lists a) = discard-Sends net _ (auth_fetch-Sends net _ _ _ _)
  run_list-Sends (add_list_item a b c) = discard-Sends net _ (auth_fetch-Sends net _ _ _ _)
  run_list-Sends (get_list_candidates a b c d) = discard-Sends net _ (auth_fetch-Sends net _ _ _ _)
  run_list-Sends (remove_list_item a b c) = discard-Sends net _ (auth_fetch-Sends net _ _ _ _)
  run_list-Sends (reorder_list_items a b c) = discard-Sends net _ (auth_fetch-Sends net _ _ _ _)
  run_list-Sends (vote_list_item a b c d) = discard-Sends net _ (auth_fetch-Sends net _ _ _ _)
  run_list-Sends (remove_list_item_vote a b c) = discard-Sends net _ (auth_fetch-Sends net _ _ _ _)
  run_list-Sends (toggle_list_like a b) = discard-Sends net _ (auth_fetch-Sends net _ _ _ _)
  run_list-Sends (toggle_list_follow a b) = discard-Sends net _ (auth_fetch-Sends net _ _ _ _)
  run_list-Sends (add_list_comment a b c) = discard-Sends net _ (auth_fetch-Sends net _ _ _ _)
  run_list-Sends (delete_list_comment a b c) = discard-Sends net _ (auth_fetch-Sends net _ _ _ _)
