-- ===== src/WatchCsv/Rows.antt =====
-- The rows and errors of an import (frontend/lib/watch-links.ts, `parseWatchCsv`).
use rank_verse.Base.{
  ℕ, ◌+◌, ◌≡◌, refl, Bool, true, false, ◌||◌, not, List, [], ◌∷◌, arith, length, All, Bool-cases,
  inl, inr,
}
use rank_verse.Base.Text.{Text, trim, to_lower}
use rank_verse.WatchCsv.{
  WatchCsvRow, WatchCsvResult, gather, LineResult, skipped, failed, parsed, split_csv_line,
  split_lines, cell, is_empty, is_header, is_short, row_of, parse_cells, parse_trimmed, parse_line,
  parse_lines, parse_watch_csv,
}

-- A row that the API can take: its three required fields are there.
abbrev pub IsUsable : WatchCsvRow → Type 0
IsUsable row =
    (is_empty row.entity_slug ≡ false)
    × (is_empty row.provider ≡ false)
    × (is_empty row.url ≡ false)

is_empty-to_lower : (s : Text) → is_empty (to_lower s) ≡ is_empty s
unfolding to_lower
is_empty-to_lower [] = refl
is_empty-to_lower (c ∷ s) = refl

abbrev IsUsableResult : LineResult → Type 0
IsUsableResult (parsed row) = IsUsable row
IsUsableResult _ = Unit

row_of-IsUsable : (cells : List Text) → is_short cells ≡ false → IsUsable (row_of cells)
unfolding row_of
row_of-IsUsable cells h = ground (arith, is_empty-to_lower (cell cells 1))

parse_cells-IsUsable : (index : ℕ) (cells : List Text) → IsUsableResult (parse_cells index cells)
unfolding parse_cells
parse_cells-IsUsable index cells = elim (Bool-cases (is_header index cells)) [
  | inl e ↦ rw e tt
  | inr e ↦ rw e (elim (Bool-cases (is_short cells)) [
    | inl f ↦ rw f tt
    | inr f ↦ rw f (row_of-IsUsable cells f)
  ])
]

parse_trimmed-IsUsable : (index : ℕ) (line : Text) → IsUsableResult (parse_trimmed index line)
parse_trimmed-IsUsable index [] = tt
parse_trimmed-IsUsable index (c ∷ s) = parse_cells-IsUsable index (split_csv_line (c ∷ s))

gather-IsUsable :
    (l : LineResult) (r : WatchCsvResult)
    → IsUsableResult l
    → All IsUsable r.rows
    → All IsUsable (gather l r).rows
gather-IsUsable skipped r h k = k
gather-IsUsable (failed e) r h k = k
gather-IsUsable (parsed row) r h k = (h, k)

parse_lines-IsUsable : (index : ℕ) (lines : List Text) → All IsUsable (parse_lines index lines).rows
unfolding parse_lines
parse_lines-IsUsable index [] = tt
parse_lines-IsUsable index (raw ∷ lines) =
    gather-IsUsable (parse_line index raw) (parse_lines (index + 1) lines)
      (parse_trimmed-IsUsable index (trim raw)) (parse_lines-IsUsable (index + 1) lines)

-- Every row of an import has a slug, a provider and a link, whatever the file holds.
parse_watch_csv-IsUsable : (text : Text) → All IsUsable (parse_watch_csv text).rows
unfolding parse_watch_csv
parse_watch_csv-IsUsable text = parse_lines-IsUsable 0 (split_lines [] text)

abbrev as_number : Bool → ℕ
as_number true = 1
as_number false = 0

-- A line that the import passes over: a blank one, or a header on the file's first line.
abbrev pub is_skipped : ℕ → Text → Bool
is_skipped index raw = is_empty (trim raw) || is_header index (split_csv_line (trim raw))

abbrev pub count_kept : ℕ → List Text → ℕ
count_kept index [] = 0
count_kept index (raw ∷ lines) =
    as_number (not (is_skipped index raw)) + count_kept (index + 1) lines

abbrev weight : LineResult → ℕ
weight skipped = 0
weight _ = 1

weight-parse_cells :
    (index : ℕ) (cells : List Text)
    → weight (parse_cells index cells) ≡ as_number (not (is_header index cells))
unfolding parse_cells
weight-parse_cells index cells = elim (Bool-cases (is_header index cells)) [
  | inl e ↦ rw e refl
  | inr e ↦ rw e (elim (Bool-cases (is_short cells)) [ inl f ↦ rw f refl | inr f ↦ rw f refl ])
]

weight-parse_trimmed :
    (index : ℕ) (line : Text)
    → weight (parse_trimmed index line)
      ≡ as_number (not (is_empty line || is_header index (split_csv_line line)))
weight-parse_trimmed index [] = refl
weight-parse_trimmed index (c ∷ s) = weight-parse_cells index (split_csv_line (c ∷ s))

abbrev pub size : WatchCsvResult → ℕ
size r = length r.rows + length r.errors

size-gather : (l : LineResult) (r : WatchCsvResult) → size (gather l r) ≡ weight l + size r
size-gather skipped r = omega arith
size-gather (failed e) r = omega arith
size-gather (parsed row) r = omega arith

size-parse_lines :
    (index : ℕ) (lines : List Text) → size (parse_lines index lines) ≡ count_kept index lines
unfolding parse_lines
size-parse_lines index [] = refl
size-parse_lines index (raw ∷ lines) = omega (
  arith,
  size-gather (parse_line index raw) (parse_lines (index + 1) lines),
  weight-parse_trimmed index (trim raw),
  size-parse_lines (index + 1) lines,
)

-- Each line that is neither blank nor the header gives exactly one row or one error, so no line is
-- dropped silently.
size-parse_watch_csv :
    (text : Text) → size (parse_watch_csv text) ≡ count_kept 0 (split_lines [] text)
unfolding parse_watch_csv
size-parse_watch_csv text = size-parse_lines 0 (split_lines [] text)
