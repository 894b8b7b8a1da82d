-- ===== src/Tournament/Labels/Remaining.antt =====
-- How exact the time that is left of a round is (frontend/lib/tournament.ts, `remainingFa`).
use rank_verse.Base.{
  ℕ, ◌+◌, ◌-◌, ◌*◌, ◌/◌, ◌%◌, ltb, leb, ◌≡◌, ◌≤◌, ◌<◌, Option, none, some, arith, Bool-cases, inl,
  inr,
}
use rank_verse.Tournament.Labels.{Shown, days, hours, clock, shown_of, remaining}

-- What a display says, in milliseconds, and the unit of its second number.
abbrev pub value : Shown → ℕ
value (days d h) = (d * 86400 + h * 3600) * 1000
value (hours h m) = (h * 3600 + m * 60) * 1000
value (clock m s) = (m * 60 + s) * 1000

abbrev pub unit : Shown → ℕ
unit (days d h) = 3600000
unit (hours h m) = 60000
unit (clock m s) = 1000

-- The numbers of a display are in their ranges, and the first unit shown is not 0.
abbrev pub IsProper : Shown → Type 0
IsProper (days d h) = (0 < d) × (h < 24)
IsProper (hours h m) = (0 < h) × (h < 24) × (m < 60)
IsProper (clock m s) = (m < 60) × (s < 60)

-- Nothing is left, or the display is proper, not more than what is left, and less than its unit short.
abbrev pub Tells : Option Shown → ℕ → ℕ → Type 0
Tells none deadline now = deadline ≤ now
Tells (some shown) deadline now =
    IsProper shown × (now + value shown ≤ deadline) × (deadline < now + value shown + unit shown)

shown_of-lem :
    (ms : ℕ)
    → IsProper (shown_of (ms / 1000))
      × (value (shown_of (ms / 1000)) ≤ ms)
      × (ms < value (shown_of (ms / 1000)) + unit (shown_of (ms / 1000)))
unfolding shown_of
shown_of-lem ms = elim (Bool-cases (ltb 0 (ms / 1000 / 86400))) [
  | inl e ↦ rw e (ground arith, omega arith, omega arith)
  | inr e ↦
      let none_left : ms / 1000 / 86400 ≡ 0 = ground arith in
      elim (Bool-cases (ltb 0 (ms / 1000 % 86400 / 3600))) [
        | inl f ↦
            let some_left : 0 < ms / 1000 % 86400 / 3600 = ground arith in
            rw (e, f) ((some_left, omega arith, omega arith), omega arith, omega arith)
        | inr f ↦
            let no_hour : ms / 1000 % 86400 / 3600 ≡ 0 = ground arith in
            rw (e, f) ((omega arith, omega arith), omega arith, omega arith)
      ]
]

-- The time shown for a deadline is missing exactly once the deadline has passed; else its numbers are
-- in their ranges, it is not more than what is left, and falls short by less than the unit of its
-- second number.
remaining-Tells : (deadline now : ℕ) → Tells (remaining deadline now) deadline now
unfolding remaining
remaining-Tells deadline now = elim (Bool-cases (leb deadline now)) [
  | inl e ↦ rw e (ground arith)
  | inr e ↦
      let later : now < deadline = ground arith in
      let (proper, below, above) = shown_of-lem (deadline - now) in
      rw e (proper, omega arith, omega arith)
]
