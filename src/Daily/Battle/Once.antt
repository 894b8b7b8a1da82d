-- ===== src/Daily/Battle/Once.antt =====
-- The votes of frontend/components/home/DailyBattle.tsx that are on their way, and what it shows.
use rank_verse.Base.{
  ℕ, zero, suc, ◌+◌, ◌⊎◌, ◌||◌, ◌==◌, true, false, String, Option, none, some, List, [], ◌∷◌,
  if◌then◌else◌, ◌≡◌, refl, arith, Bool-cases, inl, inr,
}
use rank_verse.Daily.{DailySide}
use rank_verse.Daily.Battle.{
  Today, Status, loading, ready, failed, absent, Battle, mounted, load, loaded, Ballot, vote, voted,
  tick, is_some, while_loading, left_at,
}

-- The component and the number of its ballots without an answer.
pub record Page : Type 0 where
  pub battle : Battle
  pub ballots : ℕ

pub data Event : Type 0 where
  read_again : Event
  read_done : ℕ → Option Today ⊎ String → Event
  click : DailySide → Event
  ballot_done : ℕ → Today ⊎ String → Event
  second : ℕ → Event

abbrev sent : Battle × Option Ballot → ℕ → Page
sent (b, none) n = record { battle = b; ballots = n }
sent (b, some ballot) n = record { battle = b; ballots = n + 1 }

abbrev answer : ℕ → Today ⊎ String → ℕ → Battle → Page
answer now reply zero b = record { battle = b; ballots = 0 }
answer now reply (suc n) b = record { battle = (voted now reply b).0; ballots = n }

-- A tick's interval runs only while the status is ready.
abbrev ticked : Status → ℕ → Page → Page
ticked ready now p = record p { battle = (tick now p.battle).0 }
ticked _ now p = p

unfoldable pub on : Event → Page → Page
unfolding load loaded vote voted tick
on read_again p = record p { battle = load p.battle }
on (read_done now reply) p = record p { battle = loaded now reply p.battle }
on (click side) p = sent (vote side p.battle) p.ballots
on (ballot_done now reply) p = answer now reply p.ballots p.battle
on (second now) p = ticked p.battle.status now p

unfoldable pub run : List Event → Page → Page
unfolding on
run [] p = p
run (e ∷ es) p = run es (on e p)

-- A status that shows the pair has one to show.
abbrev pub HasPair : Status → Option Today → Type 0
HasPair ready d = is_some d ≡ true
HasPair _ d = Unit

-- One ballot is on its way while a side is marked as being voted for, and none else.
pub record IsCounted (p : Page) : Type 0 where
  pub paired : HasPair p.battle.status p.battle.data_of
  pub single : p.ballots ≡ (if is_some p.battle.voting_side then 1 else 0)

while_loading-HasPair : (s : Status) (d : Option Today) → HasPair s d → HasPair (while_loading s) d
while_loading-HasPair loading d h = tt
while_loading-HasPair ready d h = h
while_loading-HasPair failed d h = tt
while_loading-HasPair absent d h = tt

any-HasPair : (s : Status) (d : Today) → HasPair s (some d)
any-HasPair loading d = tt
any-HasPair ready d = refl
any-HasPair failed d = tt
any-HasPair absent d = tt

loaded-HasPair :
    (now : ℕ) (reply : Option Today ⊎ String) (b : Battle)
    → HasPair (loaded now reply b).status (loaded now reply b).data_of
unfolding loaded
loaded-HasPair now (inl (some next)) b = refl
loaded-HasPair now (inl none) b = tt
loaded-HasPair now (inr message) b = tt

ended : (n : ℕ) (side : Option DailySide) → suc n ≡ (if is_some side then 1 else 0) → n ≡ 0
ended n none h = omega arith
ended n (some side) h = omega arith

click-IsCounted :
    (side : DailySide) (b : Battle) (n : ℕ) (d : Option Today)
    → b.data_of ≡ d
    → IsCounted (record { battle = b; ballots = n })
    → IsCounted (sent (vote side b) n)
unfolding vote
click-IsCounted side b n none e h = rw (e, vote) h
click-IsCounted side b n (some d) e h =
    elim (Bool-cases (is_some d.my_choice || is_some b.voting_side)) [
      | inl f ↦ rw (e, vote, f) h
      | inr f ↦
          let idle : is_some b.voting_side ≡ false = ground arith in
          rw (e, vote, f) (record { paired = h.paired; single = ground (arith, h.single) })
    ]

answer-IsCounted :
    (now : ℕ) (reply : Today ⊎ String) (b : Battle) (n : ℕ)
    → IsCounted (record { battle = b; ballots = n })
    → IsCounted (answer now reply n b)
unfolding voted load
answer-IsCounted now reply b zero h = h
answer-IsCounted now (inl next) b (suc n) h = record {
  paired = any-HasPair b.status next;
  single = ended n b.voting_side h.single;
}
answer-IsCounted now (inr message) b (suc n) h = record {
  paired = while_loading-HasPair b.status b.data_of h.paired;
  single = ended n b.voting_side h.single;
}

loaded-voting :
    (now : ℕ) (reply : Option Today ⊎ String) (b : Battle)
    → (loaded now reply b).voting_side ≡ b.voting_side
unfolding loaded
loaded-voting now (inl (some next)) b = refl
loaded-voting now (inl none) b = refl
loaded-voting now (inr message) b = refl

ticked-IsCounted : (s : Status) (now : ℕ) (p : Page) → IsCounted p → IsCounted (ticked s now p)
unfolding tick load
ticked-IsCounted ready now p h = elim (Bool-cases (left_at p.battle.deadline now == 0)) [
  | inl e ↦
      let kept = while_loading-HasPair p.battle.status p.battle.data_of h.paired in
      rw (e, tick) (record { paired = kept; single = h.single })
  | inr e ↦ rw (e, tick) (record { paired = h.paired; single = h.single })
]
ticked-IsCounted loading now p h = h
ticked-IsCounted failed now p h = h
ticked-IsCounted absent now p h = h

on-IsCounted : (e : Event) (p : Page) → IsCounted p → IsCounted (on e p)
unfolding on load loaded tick
on-IsCounted read_again p h = record {
  paired = while_loading-HasPair p.battle.status p.battle.data_of h.paired;
  single = h.single;
}
on-IsCounted (read_done now reply) p h = record {
  paired = loaded-HasPair now reply p.battle;
  single = rw (loaded-voting now reply p.battle) h.single;
}
on-IsCounted (click side) p h = click-IsCounted side p.battle p.ballots p.battle.data_of refl h
on-IsCounted (ballot_done now reply) p h = answer-IsCounted now reply p.battle p.ballots h
on-IsCounted (second now) p h = ticked-IsCounted p.battle.status now p h

run-keeps : (es : List Event) (p : Page) → IsCounted p → IsCounted (run es p)
unfolding run
run-keeps [] p h = h
run-keeps (e ∷ es) p h = run-keeps es (on e p) (on-IsCounted e p h)

-- Whatever answers and clicks come, in whatever order: one ballot at most is on its way, exactly while
-- a side is marked as being voted for, and a section that shows the pair has a pair to show.
pub run-IsCounted :
    (es : List Event) → IsCounted (run es (record { battle = mounted; ballots = 0 }))
run-IsCounted es = run-keeps es _ (record { paired = tt; single = refl })
