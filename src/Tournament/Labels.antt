-- ===== src/Tournament/Labels.antt =====
-- frontend/lib/tournament.ts: addresses, the rounds' names and the time that is left. A number in
-- Persian, `toLocaleString("fa-IR")`, is a parameter; a deadline is its time in milliseconds.
pub mod Remaining
use rank_verse.Base.{
  ℕ, ◌+◌, ◌-◌, ◌*◌, ◌/◌, ◌%◌, ltb, leb, ◌==◌, Option, none, some, List, [], ◌∷◌, ◌++◌,
  if◌then◌else◌, length, Bool, true, false, zero, suc,
}
use mathlib.Core.Option
use rank_verse.Base.Text.{Text, codes}

unfoldable pub tournament_href : Text → Text
tournament_href slug = codes "/battles/" ++ slug

-- A round behind the last has the last label.
unfoldable pub round_label : ℕ → ℕ → Text
round_label round total_rounds =
    if ltb total_rounds round
    then codes
        "\u{6cc}\u{6a9}\u{200c}\u{647}\u{634}\u{62a}\u{645} \u{646}\u{647}\u{627}\u{6cc}\u{6cc}"
    else if total_rounds - round == 0
    then codes "\u{641}\u{6cc}\u{646}\u{627}\u{644}"
    else if total_rounds - round == 1
    then codes "\u{646}\u{6cc}\u{645}\u{647}\u{200c}\u{646}\u{647}\u{627}\u{6cc}\u{6cc}"
    else if total_rounds - round == 2
    then codes
        "\u{6cc}\u{6a9}\u{200c}\u{686}\u{647}\u{627}\u{631}\u{645} \u{646}\u{647}\u{627}\u{6cc}\u{6cc}"
    else codes
        "\u{6cc}\u{6a9}\u{200c}\u{647}\u{634}\u{62a}\u{645} \u{646}\u{647}\u{627}\u{6cc}\u{6cc}"

-- What is shown of the time that is left.
pub data Shown : Type 0 where
  days hours clock : ℕ → ℕ → Shown

-- By the whole seconds.
unfoldable pub shown_of : ℕ → Shown
shown_of s =
    if ltb 0 (s / 86400)
    then days (s / 86400) (s % 86400 / 3600)
    else if ltb 0 (s % 86400 / 3600)
    then hours (s % 86400 / 3600) (s % 3600 / 60)
    else clock (s % 3600 / 60) (s % 60)

unfoldable pub remaining : ℕ → ℕ → Option Shown
unfolding shown_of
remaining deadline now =
    if leb deadline now then none else some (shown_of ((deadline - now) / 1000))

-- `padStart(2, "0")` with the Persian zero.
abbrev pub pad : Text → Text
pad [] = 1776 ∷ 1776 ∷ []
pad (c ∷ []) = 1776 ∷ c ∷ []
pad (c ∷ d ∷ s) = c ∷ d ∷ s

module _ (fa : ℕ → Text) where
  abbrev spell : Shown → Text
  spell (days d h) =
      fa d
      ++ codes " \u{631}\u{648}\u{632} \u{648} "
      ++ fa h
      ++ codes " \u{633}\u{627}\u{639}\u{62a}"
  spell (hours h m) =
      fa h
      ++ codes " \u{633}\u{627}\u{639}\u{62a} \u{648} "
      ++ fa m
      ++ codes " \u{62f}\u{642}\u{6cc}\u{642}\u{647}"
  spell (clock m s) = fa m ++ codes ":" ++ pad (fa s)

  abbrev spell_option : Option Shown → Option Text
  spell_option none = none
  spell_option (some shown) = some (spell shown)

  unfoldable pub remaining_fa : ℕ → ℕ → Option Text
  unfolding remaining
  remaining_fa deadline now = spell_option (remaining deadline now)
