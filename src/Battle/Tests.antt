-- ===== src/Battle/Tests.antt =====
-- The battles at concrete inputs.
use rank_verse.Base.{ltb}
use mathlib.Core.List.{Perm}
use rank_verse.Base.{
  ℕ, zero, ◌+◌, ◌≤◌, ◌≡◌, refl, String, Bool, true, false, Option, none, some, List, [], ◌∷◌, ◌++◌,
  arith, length, eq_iff,
}
use rank_verse.Base.Assoc
use rank_verse.Battle.Run.{Slot, zeroth, first, start_run, pick_in_run, pick_payload}
use rank_verse.Battle.Run.Play.{play, losers, losers-perm, play-done}
use rank_verse.Battle.Run.Laws.{pick_payload-pick_in_run}
use rank_verse.Battle.WinnerStays.{Side, left, right, start, pick, pick_all}
use rank_verse.Battle.WinnerStays.Refines.{Agrees, slots_of, pick_all-Agrees}
use rank_verse.Battle.PickMark.{hold_over}
use rank_verse.Battle.Session.{click, settled, held, save_failed, opening, step, run}
use rank_verse.Battle.Session.Flight.{opening-run-stays}
use rank_verse.Battle.Pool.{TournamentEntity, RunRow, Tally, empty, on_pick, ahead, handle_done}
use rank_verse.Battle.Pool.Totals.{tally_all}
use rank_verse.Base.Sort.{IsSorted}

data Film : Type 0 where
  alien brazil casino dune : Film

-- A run of four: the challenger wins, then stays twice.
abbrev sides : List Side
sides = right ∷ left ∷ left ∷ []

abbrev slots : List Slot
slots = first ∷ first ∷ first ∷ []

play_four : (play (start_run alien brazil (casino ∷ dune ∷ [])) slots).winner ≡ some brazil
unfolding play pick_in_run start_run
play_four = refl

slots_of_four : slots_of (start_run alien brazil (casino ∷ dune ∷ [])) sides ≡ slots
unfolding pick_in_run start_run
slots_of_four = refl

pick_all_four :
    pick_all (alien ∷ brazil ∷ casino ∷ dune ∷ []) sides start
    ≡ record { champion = 1; step = 4; streak = 3; voted = 3 }
unfolding pick_all pick
pick_all_four = refl

pick_all-Agrees_example :
    Agrees
      (alien ∷ brazil ∷ casino ∷ dune ∷ [])
      (pick_all (alien ∷ brazil ∷ casino ∷ dune ∷ []) sides start)
      (play
        (start_run alien brazil (casino ∷ dune ∷ []))
        (slots_of (start_run alien brazil (casino ∷ dune ∷ [])) sides))
pick_all-Agrees_example = pick_all-Agrees alien brazil (casino ∷ dune ∷ []) sides

play-done_example :
    (play (start_run alien brazil (casino ∷ dune ∷ [])) slots).done
    ≡ ltb (length (casino ∷ dune ∷ [])) (length slots)
unfolding start_run
play-done_example = play-done (start_run alien brazil (casino ∷ dune ∷ [])) slots refl

losers-perm_example :
    Perm (alien ∷ casino ∷ dune ∷ brazil ∷ []) (alien ∷ brazil ∷ casino ∷ dune ∷ [])
unfolding losers play pick_in_run start_run
losers-perm_example = losers-perm (start_run alien brazil (casino ∷ dune ∷ [])) slots

pick_payload-pick_in_run_example :
    (pick_payload (pick_in_run (start_run alien brazil (casino ∷ [])) first) zeroth).champion
    ≡ brazil
unfolding start_run pick_payload
pick_payload-pick_in_run_example =
    pick_payload-pick_in_run (start_run alien brazil (casino ∷ [])) first zeroth refl

-- A click, a second one while the first is in flight, and a request that fails.
opening-run-stays_example :
    let items = alien ∷ brazil ∷ casino ∷ [] in
    (run items true
      (click right ∷ click left ∷ settled 0 ∷ save_failed "offline" ∷ held 0 ∷ [])
      (opening items true)).stays
    ≡ pick_all items (right ∷ []) start
unfolding hold_over step
opening-run-stays_example =
    opening-run-stays (alien ∷ brazil ∷ casino ∷ []) true
      (click right ∷ click left ∷ settled 0 ∷ save_failed "offline" ∷ held 0 ∷ [])

abbrev entity : String → TournamentEntity
entity id = record {
  id = id;
  slug = id;
  entity_type = "movie";
  title = id;
  title_fa = none;
  poster_url = none;
  year = none;
  seed = none;
}

abbrev participants : List TournamentEntity
participants = entity "a" ∷ entity "b" ∷ entity "c" ∷ []

-- b beats a, then c.
abbrev tally : Tally
tally = tally_all (("a", "b", right) ∷ ("b", "c", left) ∷ []) empty

abbrev row : String → ℕ → ℕ → RunRow
row id wins out = record { entity = entity id; wins = wins; out = out }

handle_done_three :
    handle_done "b" participants tally ≡ row "b" 2 0 ∷ row "c" 0 2 ∷ row "a" 0 1 ∷ []
unfolding handle_done tally_all on_pick Assoc.get Assoc.set ahead rank_verse.Base.Sort.sort
    rank_verse.Base.Sort.insert
handle_done_three = refl
