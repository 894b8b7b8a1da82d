-- ===== src/Daily/Tests.antt =====
-- The daily battle's helpers at concrete inputs.
use rank_verse.Base.{List, inl, inr}
use rank_verse.Daily.Battle.{Today, mounted}
use rank_verse.Daily.Battle.Once.{
  Event, read_done, click, ballot_done, second, run, IsCounted, run-IsCounted,
}
use rank_verse.Base.{[], ◌∷◌, ◌≡◌, ◌+◌, refl, none, some, true, false, arith}
use rank_verse.Base.Text.{codes}
use rank_verse.Daily.{
  DailyResults, left, right, share_percent, format_countdown, Browser, Chance, get_guest_id, new_id,
}
use rank_verse.Daily.Shares.{IsClose, votes_of, share_percent-IsClose}
use rank_verse.Daily.Guest.{IsFair, get_guest_id-stays}

abbrev thirds : DailyResults
thirds = record { left_votes = 2; right_votes = 1; total = 3 }

two_thirds : share_percent thirds left ≡ 67
unfolding share_percent
two_thirds = refl

share_percent-IsClose_example :
    (share_percent thirds left + share_percent thirds right ≡ 100)
    × IsClose (share_percent thirds right) (votes_of right thirds) 3
share_percent-IsClose_example = share_percent-IsClose thirds right refl (omega arith)

a_countdown : format_countdown 18760 ≡ 1776 ∷ 1781 ∷ b':' ∷ 1777 ∷ 1778 ∷ b':' ∷ 1780 ∷ 1776 ∷ []
unfolding format_countdown rank_verse.Labels.Digits.to_fa_digits rank_verse.Labels.Digits.decimal
a_countdown = refl

abbrev no_uuid : Chance
no_uuid = record { uuid = none; draw = λ k. 11 }

abbrev a_browser : Browser
a_browser = record {
  reads_blocked = false;
  writes_blocked = true;
  stored = some (codes "broken");
  memory = none;
}

made_up : new_id no_uuid ≡ codes "bbbbbbbb-bbbb-4bbb-bbbb-bbbbbbbbbbbb"
unfolding new_id
made_up = refl

no_uuid-IsFair : IsFair no_uuid
no_uuid-IsFair = record { drawn = λ i. omega arith; given = λ id e. cc }

abbrev a_uuid : Chance
a_uuid = record { uuid = some (codes "another"); draw = λ k. 0 }

get_guest_id-stays_example :
    get_guest_id a_uuid a_uuid (get_guest_id no_uuid no_uuid a_browser).1
    ≡ get_guest_id no_uuid no_uuid a_browser
get_guest_id-stays_example =
    get_guest_id-stays no_uuid no_uuid a_uuid a_uuid a_browser no_uuid-IsFair

abbrev a_battle : Today
a_battle = record {
  daily_battle_id = "b1";
  my_choice = none;
  results = none;
  seconds_until_next = 60;
}

abbrev events : List Event
events =
    read_done 0 (inl (some a_battle))
    ∷ click left
    ∷ click right
    ∷ second 90000
    ∷ ballot_done 91000 (inr "offline")
    ∷ click right
    ∷ []

run-IsCounted_example : IsCounted (run events (record { battle = mounted; ballots = 0 }))
run-IsCounted_example = run-IsCounted events

one_ballot : (run events (record { battle = mounted; ballots = 0 })).ballots ≡ 1
unfolding run
one_ballot = refl
