-- ===== src/ListPage/Tests.antt =====
-- The list page's components at concrete inputs.

use rank_verse.Base.{str_eq}
use rank_verse.ListPage.Adding.Saves.{IsServerId}
use mathlib.Core.List.Perm
use rank_verse.Base.{
  List, [], ◌∷◌, ◌≡◌, refl, none, some, true, false, Ordering, String, Bool, Option,
}
use rank_verse.Constellation.{ListDetail}
use rank_verse.ListPage.Votes.Agree.{
  Votes, tap, accepted, refused, Move, IsHonest, opened, run, run-IsHonest,
}
use rank_verse.ListPage.Order.{Item, Manager, mounted}
use rank_verse.ListPage.Order.Stored
use rank_verse.ListPage.Order.Stored.{Page, up, down, remove, run-IsSame, ids_of}
use rank_verse.ListPage.Order.Accepted.{run-IsEqual}
use rank_verse.ListPage.Adding.{ListCandidate, Saved, add_selected, temps}
use rank_verse.ListPage.Adding.Saves.{saved_items}
use rank_verse.ListPage.Adding.Ticks.{ticked, add_selected-items}
use mathlib.Core.List.{Perm}

abbrev some_votes : Votes
some_votes = record { likes = 3; dislikes = 1; own = none }

abbrev moves : List Move
moves = tap true ∷ tap false ∷ refused ∷ tap false ∷ accepted ∷ tap true ∷ []

run-IsHonest_example : IsHonest (run moves (opened some_votes))
run-IsHonest_example = run-IsHonest moves some_votes

abbrev an_item : String → Item
an_item id = record {
  id = id;
  position = 1;
  votes = record { like_count = 0; dislike_count = 0; my_vote = none };
}

abbrev a_page : Page
a_page = record {
  manager = mounted true (an_item "a" ∷ an_item "b" ∷ an_item "c" ∷ []);
  stored = "a" ∷ "b" ∷ "c" ∷ [];
}

moved :
    ids_of
      (Stored.run true (down 0 none ∷ up 2 none ∷ remove "a" true none ∷ []) a_page).manager.items
    ≡ "b" ∷ "c" ∷ []
unfolding rank_verse.ListPage.Order.initial_order Stored.run
moved = refl

run-IsSame_example :
    Perm
      (ids_of (Stored.run true (down 0 (some "no") ∷ up 2 none ∷ []) a_page).manager.items)
      (Stored.run true (down 0 (some "no") ∷ up 2 none ∷ []) a_page).stored
unfolding rank_verse.ListPage.Order.initial_order
run-IsSame_example = run-IsSame true (down 0 (some "no") ∷ up 2 none ∷ []) a_page (Perm.refl _)

run-IsEqual_example :
    ids_of (Stored.run true (down 0 none ∷ remove "a" true none ∷ []) a_page).manager.items
    ≡ (Stored.run true (down 0 none ∷ remove "a" true none ∷ []) a_page).stored
unfolding rank_verse.ListPage.Order.initial_order
run-IsEqual_example =
    run-IsEqual true (down 0 none ∷ remove "a" true none ∷ []) a_page refl (refl, (refl, tt))

abbrev a_candidate : String → ListCandidate
a_candidate id = record {
  entity = record {
    id = id;
    slug = id;
    title = [];
    entity_type = "movie";
    poster_path = none;
    title_fa = none;
  };
  year = none;
  director = none;
  lead_actor = none;
  genres = none;
  overview = none;
}

abbrev the_saved : Saved
the_saved = record { id = "i9"; position = 4 }

-- The server refuses the entity e1.
abbrev by_refusal : Bool → Option Saved
by_refusal true = none
by_refusal false = some the_saved

abbrev one_fails : ListCandidate → Option Saved
one_fails c = by_refusal (str_eq c.entity.id "e1")

by_refusal-IsServerId : (b : Bool) (s : Saved) → by_refusal b ≡ some s → IsServerId s.id
by_refusal-IsServerId true s e = absurd cc
by_refusal-IsServerId false s e = let same : the_saved ≡ s = cc in rw⁻¹ same refl

abbrev no_items : ListDetail
no_items = record { items = []; edges = none; backlinks = none }

abbrev taps : List ListCandidate
taps = a_candidate "e3" ∷ a_candidate "e2" ∷ a_candidate "e1" ∷ a_candidate "e3" ∷ []

add_selected-items_example :
    (add_selected
      (λ a b. Ordering.eq)
      one_fails
      true
      "now"
      (record { selected = ticked taps; error = none })
      no_items).1.items
    ≡ saved_items one_fails (ticked taps) (temps "now" (ticked taps) [])
add_selected-items_example =
    add_selected-items (λ a b. Ordering.eq) one_fails "now" taps no_items
      (λ c s e. by_refusal-IsServerId (str_eq c.entity.id "e1") s e) tt
