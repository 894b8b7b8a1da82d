-- ===== src/Bell/Poll.antt =====
-- The polling of the unread count in frontend/components/NotificationBell.tsx: the delay doubles after
-- each failure, up to a limit, and only a visible tab polls.
use rank_verse.Base.{Option-cases}
use rank_verse.Base.{inr}
use rank_verse.Base.{◌∙◌}
use rank_verse.Base.{inl}
use rank_verse.Base.{ap}
use rank_verse.Base.{Bool-cases}
use rank_verse.Base.{◌-◌}
use rank_verse.Base.{
  ℕ, zero, suc, ◌+◌, ◌*◌, ◌≡◌, refl, min, Bool, true, false, Option, none, some, List, [], ◌∷◌,
  if◌then◌else◌, arith,
}

abbrev pub poll_ms : ℕ
poll_ms = 60000

abbrev pub max_backoff_ms : ℕ
max_backoff_ms = 600000

-- The effect of one token: `timer` is the delay of the timer that is set, and `waiting` the number of
-- requests that are on their way.
pub record Poll : Type 0 where
  pub count : ℕ
  pub delay : ℕ
  pub timer : Option ℕ
  pub is_visible : Bool
  pub is_cancelled : Bool
  pub waiting : ℕ

unfoldable pub schedule : Poll → Poll
schedule p =
    let cleared = record p { timer = none } in
    if p.is_cancelled
    then cleared
    else if p.is_visible
    then record p { timer = some p.delay }
    else cleared

-- `tick` up to its request; the effect runs with a token only.
unfoldable pub tick : Poll → Poll
tick p = record p { waiting = p.waiting + 1 }

-- The first tick of the effect.
unfoldable pub start : ℕ → Bool → Poll
unfolding tick
start count is_visible = tick (record {
  count = count;
  delay = poll_ms;
  timer = none;
  is_visible = is_visible;
  is_cancelled = false;
  waiting = 0;
})

abbrev pub one_less : Poll → Poll
one_less p = record p { waiting = p.waiting - 1 }

-- A request's answer: the count, or none where it failed. An answer that comes after the effect's end
-- changes nothing that is read.
unfoldable pub ticked : Option ℕ → Poll → Poll
unfolding schedule
ticked (some c) p =
    let settled = schedule (record (one_less p) { count = c; delay = poll_ms }) in
    if p.is_cancelled then one_less p else settled
ticked none p = schedule (record (one_less p) { delay = min (p.delay * 2) max_backoff_ms })

-- The timer's end.
unfoldable pub rung : Poll → Poll
unfolding tick
rung p = elim p.timer [ none ↦ p | some after ↦ tick (record p { timer = none }) ]

unfoldable pub on_visibility : Bool → Poll → Poll
unfolding tick
on_visibility true p = tick (record p { is_visible = true })
on_visibility false p = record p { is_visible = false; timer = none }

unfoldable pub cancel : Poll → Poll
cancel p = record p { is_cancelled = true; timer = none }

pub data Event : Type 0 where
  answer : Option ℕ → Event
  ring : Event
  visible : Bool → Event

unfoldable pub on : Event → Poll → Poll
unfolding ticked rung on_visibility
on (answer reply) p = ticked reply p
on ring p = rung p
on (visible is_visible) p = on_visibility is_visible p

unfoldable pub run : List Event → Poll → Poll
unfolding on
run [] p = p
run (e ∷ es) p = run es (on e p)

-- The failures since the last success, after `n`.
abbrev pub failures : ℕ → List Event → ℕ
failures n [] = n
failures n (answer (some c) ∷ es) = failures 0 es
failures n (answer none ∷ es) = failures (suc n) es
failures n (ring ∷ es) = failures n es
failures n (visible is_visible ∷ es) = failures n es

-- The delay after `n` failures in a row: doubled each time, up to the limit.
abbrev pub doubled : ℕ → ℕ → ℕ
doubled zero k = k
doubled (suc n) k = 2 * doubled n k

abbrev pub backoff : ℕ → ℕ
backoff n = min (doubled n poll_ms) max_backoff_ms

-- A timer is set for the present delay, and in a visible tab.
abbrev pub TimerFits : Option ℕ → Bool → ℕ → Type 0
TimerFits none is_visible delay = Unit
TimerFits (some after) is_visible delay = (is_visible ≡ true) × (after ≡ delay)

-- At work, with `n` failures in a row behind it.
pub record IsPaced (n : ℕ) (p : Poll) : Type 0 where
  pub working : p.is_cancelled ≡ false
  pub paced : p.delay ≡ backoff n
  pub timed : TimerFits p.timer p.is_visible p.delay

backoff-suc : (n : ℕ) → min (backoff n * 2) max_backoff_ms ≡ backoff (suc n)
backoff-suc n = ground arith

schedule-IsPaced :
    (n : ℕ) (p : Poll) → p.is_cancelled ≡ false → p.delay ≡ backoff n → IsPaced n (schedule p)
unfolding schedule
schedule-IsPaced n p w e = elim (Bool-cases p.is_visible) [
  | inl f ↦ rw (w, f) (record { working = refl; paced = e; timed = (refl, refl) })
  | inr f ↦ rw (w, f) (record { working = refl; paced = e; timed = tt })
]

TimerFits-visible :
    (timer : Option ℕ) (is_visible : Bool) (delay : ℕ)
    → TimerFits timer is_visible delay
    → TimerFits timer true delay
TimerFits-visible none is_visible delay h = tt
TimerFits-visible (some after) is_visible delay h = (refl, h.1)

on-IsPaced : (n : ℕ) (e : Event) (p : Poll) → IsPaced n p → IsPaced (failures n (e ∷ [])) (on e p)
unfolding on ticked rung on_visibility tick
on-IsPaced n (answer (some c)) p h = rw h.working (
    schedule-IsPaced 0
      (record p { count = c; delay = poll_ms; waiting = p.waiting - 1; is_cancelled = false }) refl
      refl)
on-IsPaced n (answer none) p h =
    schedule-IsPaced (suc n) (record (one_less p) { delay = min (p.delay * 2) max_backoff_ms })
      h.working (ap (λ d. min (d * 2) max_backoff_ms) h.paced ∙ backoff-suc n)
on-IsPaced n ring p h = elim (Option-cases p.timer) [
  | inl e ↦ rw e (record { working = h.working; paced = h.paced; timed = tt })
  | inr (after, e) ↦ rw e (record { working = h.working; paced = h.paced; timed = tt })
]
on-IsPaced n (visible true) p h = record {
  working = h.working;
  paced = h.paced;
  timed = TimerFits-visible p.timer p.is_visible p.delay h.timed;
}
on-IsPaced n (visible false) p h = record { working = h.working; paced = h.paced; timed = tt }

run-keeps : (n : ℕ) (es : List Event) (p : Poll) → IsPaced n p → IsPaced (failures n es) (run es p)
unfolding run
run-keeps n [] p h = h
run-keeps n (answer (some c) ∷ es) p h = run-keeps 0 es _ (on-IsPaced n (answer (some c)) p h)
run-keeps n (answer none ∷ es) p h = run-keeps (suc n) es _ (on-IsPaced n (answer none) p h)
run-keeps n (ring ∷ es) p h = run-keeps n es _ (on-IsPaced n ring p h)
run-keeps n (visible v ∷ es) p h = run-keeps n es _ (on-IsPaced n (visible v) p h)

-- Whatever order answers, rings and changes of visibility come in: the delay is a minute doubled once
-- for each failure since the last success, at most ten minutes, and a timer that is set is set for
-- that delay and in a visible tab.
pub run-IsPaced :
    (es : List Event) (count : ℕ) (is_visible : Bool)
    → IsPaced (failures 0 es) (run es (start count is_visible))
unfolding start tick
run-IsPaced es count is_visible =
    run-keeps 0 es _ (record { working = refl; paced = refl; timed = tt })
