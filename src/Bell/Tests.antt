-- ===== src/Bell/Tests.antt =====
-- The bell at concrete inputs.
use rank_verse.Base.{List, [], ◌∷◌, ◌≡◌, refl, none, some, true, false, String, Bool}
use rank_verse.Bell.{AppNotification}
use rank_verse.Bell.Poll.{Event, answer, ring, visible, IsPaced, start, failures, run-IsPaced}
use rank_verse.Bell.Poll
use rank_verse.Bell.Agree.{Page, Deed, open_one, remove_one, read_all, InStep, run-InStep}
use rank_verse.Bell.Agree

abbrev events : List Event
events = answer none ∷ ring ∷ answer none ∷ visible false ∷ answer none ∷ visible true ∷ []

run-IsPaced_example : IsPaced 3 (Poll.run events (start 0 true))
run-IsPaced_example = run-IsPaced events 0 true

backed_off : (Poll.run events (start 0 true)).delay ≡ 480000
unfolding Poll.run start
backed_off = refl

abbrev a_notification : String → Bool → AppNotification
a_notification id is_read = record {
  id = id;
  type = "list_liked";
  message = "";
  link = none;
  actor_count = 1;
  is_read = is_read;
  created_at = "";
}

abbrev three : List AppNotification
three = a_notification "a" false ∷ a_notification "b" true ∷ a_notification "c" false ∷ []

abbrev a_page : Page
a_page = record {
  bell = record { count = 2; is_open = true; items = some three; has_failed = false };
  held = three;
}

abbrev deeds : List Deed
deeds = remove_one "a" false ∷ open_one "a" ∷ read_all false ∷ remove_one "b" true ∷ []

run-InStep_example : InStep (Agree.run deeds a_page)
run-InStep_example =
    run-InStep deeds a_page (record {
      shown = refl;
      counted = refl;
      apart = ((refl, (refl, tt)), ((refl, tt), (tt, tt)));
    })

one_unread : (Agree.run deeds a_page).bell.count ≡ 1
unfolding Agree.run
one_unread = refl
