-- ===== src/Daily/Battle.antt =====
-- frontend/components/home/DailyBattle.tsx: the day's battle on the home page, read, voted on and counted
-- down. A time is in milliseconds; `left`, seconds, stops at 0 where the source's goes below it.
pub mod Once
use rank_verse.Base.{inr}
use rank_verse.Base.{inl}
use rank_verse.Base.{◌⊎◌}
use rank_verse.Base.{
  ℕ, ◌+◌, ◌-◌, ◌*◌, ◌/◌, ◌||◌, ◌==◌, Bool, true, false, not, String, Option, none, some,
  if◌then◌else◌,
}
use rank_verse.Daily.{DailySide, DailyResults}

-- The fields of the day's battle that the component acts on.
pub record Today : Type 0 where
  pub daily_battle_id : String
  pub my_choice : Option DailySide
  pub results : Option DailyResults
  pub seconds_until_next : ℕ

pub data Status : Type 0 where
  loading ready failed absent : Status

pub record Battle : Type 0 where
  pub data_of : Option Today
  pub status : Status
  pub error : Option String
  pub voting_side : Option DailySide
  pub seconds_left : ℕ
  pub deadline : ℕ

abbrev pub mounted : Battle
mounted = record {
  data_of = none;
  status = loading;
  error = none;
  voting_side = none;
  seconds_left = 0;
  deadline = 0;
}

unfoldable pub apply : ℕ → Today → Battle → Battle
apply now next b = record b {
  data_of = some next;
  deadline = now + next.seconds_until_next * 1000;
  seconds_left = next.seconds_until_next;
}

abbrev pub while_loading : Status → Status
while_loading ready = ready
while_loading _ = loading

-- `load` up to its request.
unfoldable pub load : Battle → Battle
load b = record b { status = while_loading b.status; error = none }

-- Its answer: the battle, `none` on a day without one, or the message of a failure.
unfoldable pub loaded : ℕ → Option Today ⊎ String → Battle → Battle
unfolding apply
loaded now (inl (some next)) b = record (apply now next b) { status = ready }
loaded now (inl none) b = record b { data_of = none; status = absent }
loaded now (inr message) b = record b { error = some message; status = failed }

abbrev pub is_some {ℓ} : {A : Type ℓ} → Option A → Bool
is_some none = false
is_some (some a) = true

-- What a vote asks of the server.
pub record Ballot : Type 0 where
  pub daily_battle_id : String
  pub choice : DailySide

-- `vote` up to its request; `voting` and `votingSide` are set and cleared together.
unfoldable pub vote : DailySide → Battle → Battle × Option Ballot
vote choice b = elim b.data_of [
  | none ↦ (b, none)
  | some d ↦ if is_some d.my_choice || is_some b.voting_side then (b, none) else (
    record b { voting_side = some choice; error = none },
    some (record { daily_battle_id = d.daily_battle_id; choice = choice }),
  )
]

-- Its answer; after a failure the day's battle is read again, and its error goes with that.
unfoldable pub voted : ℕ → Today ⊎ String → Battle → Battle × Bool
unfolding apply load
voted now (inl next) b = (record (apply now next b) { voting_side = none }, false)
voted now (inr message) b =
    (record (load (record b { error = some message })) { voting_side = none }, true)

-- `Math.round((deadline - now) / 1000)`, where it is positive.
abbrev pub left_at : ℕ → ℕ → ℕ
left_at deadline now = (deadline - now + 500) / 1000

-- A tick of the interval, which runs while the status is ready; `true` where it reads the battle again.
unfoldable pub tick : ℕ → Battle → Battle × Bool
unfolding load
tick now b =
    let left = left_at b.deadline now in
    let shown = record b { seconds_left = left } in
    if left == 0 then (load (record shown { deadline = now + 60000 }), true) else (shown, false)
