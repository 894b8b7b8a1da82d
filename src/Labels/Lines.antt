-- ===== src/Labels/Lines.antt =====
-- frontend/lib/graph-label.ts: the lines of a name beside a node of a graph.
pub mod Full
pub mod Short
use rank_verse.Base.{
  ℕ, zero, suc, ◌+◌, ◌-◌, ◌||◌, Bool, true, false, Option, none, some, List, [], ◌∷◌, ◌++◌,
  if◌then◌else◌, ltb, leb, length, take, drop,
}
use rank_verse.Base.Text.{Text, is_space}

abbrev pub is_nil {ℓ} : {A : Type ℓ} → List A → Bool
is_nil [] = true
is_nil (x ∷ xs) = false

-- The word read so far before the words behind it.
abbrev pub put_word : Text → List Text → List Text
put_word [] words = words
put_word (c ∷ w) words = (c ∷ w) ∷ words

-- `name.trim().split(/\s+/).filter(Boolean)`; `word` is the word that is being read.
unfoldable pub words_from : Text → Text → List Text
words_from word [] = put_word word []
words_from word (c ∷ s) =
    let ended = put_word word (words_from [] s) in
    let longer = words_from (word ++ c ∷ []) s in if is_space c then ended else longer

unfoldable pub words_of : Text → List Text
unfolding words_from
words_of name = words_from [] name

-- `words.join(" ")`
abbrev pub join_words : List Text → Text
join_words [] = []
join_words (w ∷ []) = w
join_words (w ∷ v ∷ words) = w ++ 32 ∷ join_words (v ∷ words)

abbrev pub gap : List Text → ℕ → ℕ
gap words k =
    let first = length (join_words (take k words)) in
    let second = length (join_words (drop k words)) in (first - second) + (second - first)

-- `Infinity` is `none`.
abbrev pub is_less : ℕ → Option ℕ → Bool
is_less n none = true
is_less n (some m) = ltb n m

-- The loop over `k`, `n` times from `k` on, with `best` and `bestGap`.
unfoldable pub balance : List Text → ℕ → ℕ → ℕ → Option ℕ → ℕ
balance words zero k best best_gap = best
balance words (suc n) k best best_gap =
    let kept = balance words n (k + 1) best best_gap in
    let taken = balance words n (k + 1) k (some (gap words k)) in
    if is_less (gap words k) best_gap then taken else kept

unfoldable pub best_split : List Text → ℕ
unfolding balance
best_split words = balance words (length words - 1) 1 1 none

-- The greedy fill: the line before the last, the last, and the words used.
pub record Filled : Type 0 where
  pub before : Option Text
  pub cur : Text
  pub used : ℕ

unfoldable pub fill : ℕ → Option Text → Text → ℕ → List Text → Filled
fill max_line before cur used [] = record { before = before; cur = cur; used = used }
fill max_line before cur used (w ∷ words) =
    let next = if is_nil cur then w else cur ++ 32 ∷ w in
    let longer = fill max_line before next (used + 1) words in
    let below = fill max_line (some cur) w (used + 1) words in
    if leb (length next) max_line || ltb used 2
    then longer
    else elim before [ none ↦ below | some b ↦ record { before = some b; cur = cur; used = used } ]

abbrev pub lines_of : Option Text → Text → List Text
lines_of none cur = cur ∷ []
lines_of (some b) cur = b ∷ cur ∷ []

-- `…`
abbrev pub ellipsis : Text
ellipsis = 8230 ∷ []

abbrev pub ended : Filled → ℕ → List Text
ended f n = lines_of f.before (if ltb f.used n then f.cur ++ ellipsis else f.cur)

unfoldable pub two_lines : List Text → List Text
unfolding best_split
two_lines (w ∷ []) = w ∷ []
two_lines words =
    let best = best_split words in join_words (take best words) ∷ join_words (drop best words) ∷ []

unfoldable pub label_lines : Text → Bool → ℕ → List Text
unfolding words_of two_lines fill
label_lines name full max_line =
    let words = words_of name in
    if is_nil words
    then []
    else if leb (length (join_words words)) max_line
    then join_words words ∷ []
    else if full
    then two_lines words
    else ended (fill max_line none [] 0 words) (length words)
