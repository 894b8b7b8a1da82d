-- ===== src/AdminUsers/Tests.antt =====
-- The table of users at concrete inputs.
use rank_verse.Base.{◌==◌}
use rank_verse.Base.{if◌then◌else◌}
use rank_verse.Base.{ℕ, Option, none, some, List, [], ◌∷◌, ◌≡◌, refl}
use rank_verse.AdminUsers.Loading.{RowsPage, Event, read, arrive, Shows, run, mounted, run-Shows}
use rank_verse.AdminUsers.Selection.{block}
use rank_verse.AdminUsers.Selection.Bulk.{tick, tick_page, press, confirm, get_rows}
use rank_verse.AdminUsers.Selection.Bulk

abbrev replies : ℕ → Option RowsPage
replies n = if n == 2 then some (record { ids = "b" ∷ []; total = 1 }) else none

abbrev arrivals : List Event
arrivals = read ∷ read ∷ arrive 2 ∷ arrive 1 ∷ []

run-Shows_example :
    Shows
      (run replies arrivals mounted).is_loading
      (replies (run replies arrivals mounted).req_id)
      (run replies arrivals mounted)
run-Shows_example = run-Shows replies arrivals

latest : (run replies arrivals mounted).ids ≡ "b" ∷ []
unfolding run
latest = refl

abbrev presses : List Bulk.Event
presses =
    get_rows ("a" ∷ "b" ∷ []) 9 ∷ tick "b" ∷ tick_page ∷ tick "c" ∷ tick "b" ∷ press block ∷ []
