-- ===== src/Labels/Lines/Full.antt =====
-- A name that frontend/lib/graph-label.ts writes in full, and where it breaks it.
use rank_verse.Base.{ℕ, ◌≤◌, ◌<◌, List, [], ◌∷◌, ◌++◌, length, take, drop, ◌≡◌}
use rank_verse.Base.Text.{Text}
use rank_verse.Labels.Lines.{join_words, gap}

-- A break before `m` words that no other such break balances better.
pub record IsBalanced (words : List Text) (m k : ℕ) : Type 0 where
  pub breaks : 1 ≤ k
  pub early : k < m
  pub least : (j : ℕ) → 1 ≤ j → j < m → gap words k ≤ gap words j

-- What is shown of these words: nothing, all of them on one line, or all of them on two lines broken
-- where no other break balances the lengths better.
pub data Shows : List Text → List Text → Type 0 where
  no_line : Shows [] []
  one_line : (words : List Text) → Shows words (join_words words ∷ [])
  broken :
      (words : List Text) (k : ℕ)
      → IsBalanced words (length words) k
      → join_words (take k words) ++ 32 ∷ join_words (drop k words) ≡ join_words words
      → Shows words (join_words (take k words) ∷ join_words (drop k words) ∷ [])
