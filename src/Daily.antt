-- ===== src/Daily.antt =====
-- frontend/lib/daily-battle.ts: the shares of the votes, the countdown and the guest's id. A share is
-- `Math.round` of a quotient, rounded half up, as the floating-point quotient of counts far below 2^40
-- is.
pub mod Shares
pub mod Guest
pub mod Battle
mod Tests
use rank_verse.Base.{
  ℕ, zero, suc, ◌+◌, ◌-◌, ◌*◌, ◌/◌, ◌%◌, ltb, leb, ◌==◌, Bool, true, false, ◌&&◌, ◌||◌, Option,
  none, some, List, [], ◌∷◌, ◌++◌, if◌then◌else◌, length,
}
use rank_verse.Base.Text.{Text, codes}
use rank_verse.Labels.Digits.{decimal, to_fa_digits}

pub record DailyResults : Type 0 where
  pub left_votes : ℕ
  pub right_votes : ℕ
  pub total : ℕ

pub data DailySide : Type 0 where
  left right : DailySide

pub record Percents : Type 0 where
  pub left_share : ℕ
  pub right_share : ℕ

-- `Math.round(a / b)` for `0 < b`
unfoldable pub round_div : ℕ → ℕ → ℕ
round_div a b = (2 * a + b) / (2 * b)

unfoldable pub percents : DailyResults → Percents
unfolding round_div
percents results =
    if results.total == 0
    then record { left_share = 0; right_share = 0 }
    else let share = round_div (results.left_votes * 100) results.total in
      record { left_share = share; right_share = 100 - share }

abbrev pub side_of : DailySide → Percents → ℕ
side_of left p = p.left_share
side_of right p = p.right_share

unfoldable pub share_percent : DailyResults → DailySide → ℕ
unfolding percents
share_percent results side = side_of side (percents results)

-- `padStart(2, "0")`
abbrev pad_start : Text → Text
pad_start [] = b'0' ∷ b'0' ∷ []
pad_start (c ∷ []) = b'0' ∷ c ∷ []
pad_start (c ∷ d ∷ s) = c ∷ d ∷ s

-- Of whole seconds; a negative number counts as 0.
unfoldable pub format_countdown : ℕ → Text
format_countdown s = to_fa_digits (
    pad_start (decimal (s / 3600))
    ++ codes ":"
    ++ pad_start (decimal (s % 3600 / 60))
    ++ codes ":"
    ++ pad_start (decimal (s % 60)))

-- What a page has of the browser: whether its storage refuses reads and writes, the stored id, and the
-- id in memory.
pub record Browser : Type 0 where
  pub reads_blocked : Bool
  pub writes_blocked : Bool
  pub stored : Option Text
  pub memory : Option Text

-- Chance: what `crypto.randomUUID` gives, if it is there and does not throw, and the draws of
-- `(Math.random() * 16) | 0`, by their place in the pattern.
pub record Chance : Type 0 where
  pub uuid : Option Text
  pub draw : ℕ → ℕ

-- `n.toString(16)` for `n < 16`
abbrev pub hex_digit : ℕ → ℕ
hex_digit n = if ltb n 10 then b'0' + n else b'a' + (n - 10)

abbrev pub pattern_text : Text
pattern_text = codes "xxxxxxxx-xxxx-4xxx-yxxx-xxxxxxxxxxxx"

abbrev pub fill_unit : ℕ → ℕ → ℕ
fill_unit draw c =
    if c == b'x' then hex_digit draw else if c == b'y' then hex_digit (8 + draw % 4) else c

unfoldable pub fill : (ℕ → ℕ) → ℕ → Text → Text
fill draw k [] = []
fill draw k (c ∷ s) = fill_unit (draw k) c ∷ fill draw (k + 1) s

abbrev by_uuid : Option Text → (ℕ → ℕ) → Text
by_uuid (some id) draw = id
by_uuid none draw = fill draw 0 pattern_text

unfoldable pub new_id : Chance → Text
unfolding fill
new_id chance = by_uuid chance.uuid chance.draw

abbrev pub is_id_unit : ℕ → Bool
is_id_unit c =
    leb b'0' c && leb c b'9' || leb b'a' c && leb c b'f' || leb b'A' c && leb c b'F' || c == b'-'

abbrev pub all_id_units : Text → Bool
all_id_units [] = true
all_id_units (c ∷ s) = is_id_unit c && all_id_units s

-- `/^[0-9a-f-]{36}$/i`
unfoldable pub is_guest_id : Text → Bool
is_guest_id s = length s == 36 && all_id_units s

-- `memoryGuestId ??= newId()`
abbrev remember : Option Text → Chance → Browser → Text × Browser
remember (some id) chance b = (id, b)
remember none chance b = let id = new_id chance in (id, record b { memory = some id })

abbrev store_new : Chance → Chance → Browser → Text × Browser
store_new chance again b =
    let id = new_id chance in
    let failed = remember b.memory again b in
    if b.writes_blocked then failed else (id, record b { stored = some id })

abbrev by_stored : Option Text → Chance → Chance → Browser → Text × Browser
by_stored none chance again b = store_new chance again b
by_stored (some id) chance again b =
    let fresh = store_new chance again b in if is_guest_id id then (id, b) else fresh

-- `again` is the chance of the second `newId`, where the first id could not be stored.
unfoldable pub get_guest_id : Chance → Chance → Browser → Text × Browser
unfolding new_id is_guest_id
get_guest_id chance again b =
    if b.reads_blocked then remember b.memory chance b else by_stored b.stored chance again b
