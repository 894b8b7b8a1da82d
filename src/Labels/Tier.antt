-- ===== src/Labels/Tier.antt =====
-- frontend/lib/contribution-tier.ts. A score, a weighted count with halves, is counted in halves; a
-- tier is its index and its least score. The progress is a quotient in percent: its numerator and
-- denominator.
use rank_verse.Base.{
  ℕ, ◌+◌, ◌-◌, ◌*◌, ◌/◌, ◌≤◌, ◌<◌, ◌≡◌, leb, Option, none, some, List, [], ◌∷◌, get_elem?,
  if◌then◌else◌, arith,
}

abbrev pub mins : List ℕ
mins = 0 ∷ 25 ∷ 100 ∷ 300 ∷ 750 ∷ 2000 ∷ []

abbrev or_zero : Option ℕ → ℕ
or_zero none = 0
or_zero (some n) = n

-- The `forEach`: the last tier whose least score is reached.
unfoldable pub reach : ℕ → ℕ → ℕ → List ℕ → ℕ
reach score index i [] = index
reach score index i (min ∷ rest) =
    reach score (if leb (2 * min) score then i else index) (i + 1) rest

pub record Tier : Type 0 where
  pub current : ℕ
  pub next : Option ℕ
  pub level : ℕ
  pub progress : ℕ × ℕ
  pub remaining : ℕ

abbrev progress_to : ℕ → ℕ → Option ℕ → ℕ × ℕ
progress_to score current none = (100, 1)
progress_to score current (some next) = ((score - 2 * current) * 100, 2 * next - 2 * current)

-- `Math.ceil(next.min - score)`
abbrev left_to : ℕ → Option ℕ → ℕ
left_to score none = 0
left_to score (some next) = (2 * next - score + 1) / 2

abbrev at_index : ℕ → ℕ → Tier
at_index score index =
    let current = or_zero (get_elem? mins index) in
    let next = get_elem? mins (index + 1) in
    record {
      current = current;
      next = next;
      level = index + 1;
      progress = progress_to score current next;
      remaining = left_to score next;
    }

unfoldable pub contribution_tier : ℕ → Tier
unfolding reach
contribution_tier score = at_index score (reach score 0 0 mins)

-- The next tier is still ahead, by less than `remaining` and a half; there is none behind the last.
abbrev pub IsAhead : ℕ → Tier → Option ℕ → Type 0
IsAhead score t none = (t.level ≡ 6) × (t.remaining ≡ 0)
IsAhead score t (some next) =
    (score < 2 * next)
    × (2 * next ≤ score + 2 * t.remaining)
    × (score + 2 * t.remaining ≤ 2 * next + 1)
    × (t.progress.0 < 100 * t.progress.1)

-- A score has reached the current tier and not yet the next one, whose missing points are rounded up
-- and whose progress is below 100 percent; where there is no next tier, this is the last.
contribution_tier-IsAhead :
    (score : ℕ)
    → (2 * (contribution_tier score).current ≤ score)
      × IsAhead score (contribution_tier score) (contribution_tier score).next
unfolding contribution_tier
contribution_tier-IsAhead score = ground arith
