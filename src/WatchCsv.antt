-- ===== src/WatchCsv.antt =====
-- frontend/lib/watch-links.ts: the watch-link import. `toLowerCase` is that of ASCII letters.
pub mod Split
pub mod Rows
mod Tests
use rank_verse.Base.{
  ℕ, zero, suc, ◌+◌, String, Bool, true, false, ◌&&◌, ◌||◌, Option, none, some, List, [], ◌∷◌, ◌++◌,
  ltb, ◌==◌, length, get_elem?, if◌then◌else◌,
}
use rank_verse.Base.Text.{Text, codes, text_eq, trim, to_lower}
use rank_verse.Labels.Digits.{to_fa_digits, decimal}

pub record WatchCsvRow : Type 0 where
  pub entity_slug : Text
  pub provider : Text
  pub url : Text
  pub access_type : Text
  pub is_affiliate : Bool

pub record WatchCsvResult : Type 0 where
  pub rows : List WatchCsvRow
  pub errors : List Text

-- The loop of `splitCsvLine`, with `quoted`, `cur` and the rest of the line.
unfoldable pub scan : Bool → Text → Text → List Text
scan quoted cur [] = trim cur ∷ []
scan true cur (c ∷ []) = if c == b'"' then trim cur ∷ [] else trim (cur ++ c ∷ []) ∷ []
scan true cur (c ∷ d ∷ s) =
    let escaped = scan true (cur ++ b'"' ∷ []) s in
    let closed = scan false cur (d ∷ s) in
    let longer = scan true (cur ++ c ∷ []) (d ∷ s) in
    if c == b'"' then if d == b'"' then escaped else closed else longer
scan false cur (c ∷ s) =
    let opened = scan true cur s in
    let next = trim cur ∷ scan false [] s in
    let longer = scan false (cur ++ c ∷ []) s in
    if c == b'"' then opened else if c == b',' then next else longer

unfoldable pub split_csv_line : Text → List Text
unfolding scan
split_csv_line line = scan false [] line

-- `text.split(/\r?\n/)`
unfoldable pub split_lines : Text → Text → List Text
split_lines cur [] = cur ∷ []
split_lines cur (c ∷ []) = if c == 10 then cur ∷ [] ∷ [] else (cur ++ c ∷ []) ∷ []
split_lines cur (c ∷ d ∷ s) =
    let broken = cur ∷ split_lines [] (d ∷ s) in
    let broken_pair = cur ∷ split_lines [] s in
    let longer = split_lines (cur ++ c ∷ []) (d ∷ s) in
    if c == 10 then broken else if c == 13 && d == 10 then broken_pair else longer

abbrev pub true_words : List Text
true_words =
    codes "1"
    ∷ codes "true"
    ∷ codes "yes"
    ∷ codes "y"
    ∷ codes "\u{628}\u{644}\u{647}"
    ∷ codes "\u{622}\u{631}\u{6cc}"
    ∷ []

unfoldable pub is_true_word : Text → List Text → Bool
is_true_word w [] = false
is_true_word w (t ∷ ts) = text_eq t w || is_true_word w ts

-- `cells[i] ?? ""`; where the code reads a cell that it has tested to be there, the same.
abbrev pub cell : List Text → ℕ → Text
cell cells i = elim (get_elem? cells i) [ none ↦ [] | some c ↦ c ]

abbrev pub is_empty : Text → Bool
is_empty [] = true
is_empty (c ∷ s) = false

abbrev pub or_default : Text → Text → Text
or_default [] d = d
or_default (c ∷ s) d = c ∷ s

abbrev pub is_header : ℕ → List Text → Bool
is_header index cells =
    let first = to_lower (cell cells 0) in
    index == 0 && (text_eq first (codes "slug") || text_eq first (codes "entity_slug"))

abbrev pub is_short : List Text → Bool
is_short cells =
    ltb (length cells) 3
    || is_empty (cell cells 0)
    || is_empty (cell cells 1)
    || is_empty (cell cells 2)

abbrev pub line_error : ℕ → Text
line_error index =
    codes "\u{62e}\u{637} "
    ++ to_fa_digits (decimal (index + 1))
    ++ codes
        ": \u{62f}\u{633}\u{62a}\u{200c}\u{6a9}\u{645} slug، \u{633}\u{631}\u{648}\u{6cc}\u{633} \u{648} \u{644}\u{6cc}\u{646}\u{6a9} \u{644}\u{627}\u{632}\u{645} \u{627}\u{633}\u{62a}"

unfoldable pub row_of : List Text → WatchCsvRow
unfolding is_true_word to_lower
row_of cells = record {
  entity_slug = cell cells 0;
  provider = to_lower (cell cells 1);
  url = cell cells 2;
  access_type = to_lower (or_default (cell cells 3) (codes "subscription"));
  is_affiliate = is_true_word (to_lower (cell cells 4)) true_words;
}

-- What one line becomes.
pub data LineResult : Type 0 where
  skipped : LineResult
  failed : Text → LineResult
  parsed : WatchCsvRow → LineResult

unfoldable pub parse_cells : ℕ → List Text → LineResult
parse_cells index cells =
    if is_header index cells
    then skipped
    else if is_short cells
    then failed (line_error index)
    else parsed (row_of cells)

abbrev parse_trimmed : ℕ → Text → LineResult
parse_trimmed index [] = skipped
parse_trimmed index (c ∷ s) = parse_cells index (split_csv_line (c ∷ s))

unfoldable pub parse_line : ℕ → Text → LineResult
unfolding parse_cells split_csv_line trim
parse_line index raw = parse_trimmed index (trim raw)

abbrev pub gather : LineResult → WatchCsvResult → WatchCsvResult
gather skipped r = r
gather (failed e) r = record r { errors = e ∷ r.errors }
gather (parsed row) r = record r { rows = row ∷ r.rows }

-- The `forEach`, from line `index` on: what the later lines push comes after.
unfoldable pub parse_lines : ℕ → List Text → WatchCsvResult
unfolding parse_line
parse_lines index [] = record { rows = []; errors = [] }
parse_lines index (raw ∷ lines) = gather (parse_line index raw) (parse_lines (index + 1) lines)

unfoldable pub parse_watch_csv : Text → WatchCsvResult
unfolding parse_lines split_lines
parse_watch_csv text = parse_lines 0 (split_lines [] text)
