-- ===== src/Labels/Digits.antt =====
-- frontend/lib/format-number.ts, `toFaDigits`.
pub mod Laws
use rank_verse.Base.{
  ℕ, zero, suc, ◌+◌, ◌-◌, ◌%◌, ◌/◌, ltb, ◌≡◌, ◌≤◌, refl, Bool, true, false, ◌&&◌, List, [], ◌∷◌,
  arith, leb, length, map, length-map, if◌then◌else◌, All, ◌<◌,
}
use rank_verse.Base.Text.{Text}

-- U+06F0 to U+06F9 are the Persian digits.
abbrev pub fa_zero : ℕ
fa_zero = 1776

abbrev pub is_digit : ℕ → Bool
is_digit c = leb b'0' c && leb c b'9'

abbrev pub fa_digit : ℕ → ℕ
fa_digit c = if is_digit c then c - b'0' + fa_zero else c

-- `toFaDigits` of a text; of a number, that of its decimal text.
unfoldable pub to_fa_digits : Text → Text
to_fa_digits [] = []
to_fa_digits (c ∷ s) = fa_digit c ∷ to_fa_digits s

-- The decimal text of a number, on fuel for its digits; `suc n` rounds are enough for `n`.
unfoldable pub decimal_from : ℕ → ℕ → Text → Text
decimal_from zero n tail = tail
decimal_from (suc fuel) n tail =
    let digit = b'0' + n % 10 in
    let rest = decimal_from fuel (n / 10) (digit ∷ tail) in if ltb n 10 then digit ∷ tail else rest

-- `String(n)`
unfoldable pub decimal : ℕ → Text
unfolding decimal_from
decimal n = decimal_from (suc n) n []
