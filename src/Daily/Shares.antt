-- ===== src/Daily/Shares.antt =====
-- The shares of a daily battle's votes (frontend/lib/daily-battle.ts).
use native.Mathlib.Nat.{div-add-mod', mod-lt}
use rank_verse.Base.{ℕ, ◌+◌, ◌-◌, ◌*◌, ◌≡◌, ◌≤◌, ◌<◌, false, arith, ◌==◌, ap}
use rank_verse.Daily.{
  DailyResults, DailySide, left, right, percents, share_percent, side_of, round_div,
}

round_div-bounds :
    (a b : ℕ)
    → 0 < b
    → (round_div a b * (2 * b) ≤ 2 * a + b) × (2 * a + b < round_div a b * (2 * b) + 2 * b)
unfolding round_div
round_div-bounds a b h =
    let whole = div-add-mod' (2 * a + b) (2 * b) in
    let rest = mod-lt (2 * a + b) {m = 2 * b} (omega arith) in (omega arith, omega arith)

abbrev pub votes_of : DailySide → DailyResults → ℕ
votes_of left r = r.left_votes
votes_of right r = r.right_votes

-- At most half a point off the exact share, in units of a 200th of the votes.
abbrev pub IsClose : ℕ → ℕ → ℕ → Type 0
IsClose share votes total =
    (2 * share * total ≤ 200 * votes + total) × (200 * votes ≤ 2 * share * total + total)

share-le :
    (share votes t : ℕ) → 0 < t → votes ≤ t → share * (2 * t) ≤ 2 * (votes * 100) + t → share ≤ 100
share-le share votes t h v e = grind arith

rest-IsClose : (share d l r t : ℕ) → share + d ≡ 100 → l + r ≡ t → IsClose share l t → IsClose d r t
rest-IsClose share d l r t h e c =
    let spread = ap (λ (x : ℕ). x * t) h in (omega arith, omega arith)

left-IsClose : (l t : ℕ) → 0 < t → IsClose (round_div (l * 100) t) l t
left-IsClose l t h = let b = round_div-bounds (l * 100) t h in (omega arith, omega arith)

side-IsClose :
    (share l r t : ℕ)
    → share ≤ 100
    → l + r ≡ t
    → IsClose share l t
    → (share + (100 - share) ≡ 100) × IsClose share l t × IsClose (100 - share) r t
side-IsClose share l r t h e c =
    (omega arith, c, rest-IsClose share (100 - share) l r t (omega arith) e c)

by_side :
    (r : DailyResults) (side : DailySide) (share : ℕ)
    → (share + (100 - share) ≡ 100)
      × IsClose share r.left_votes r.total
      × IsClose (100 - share) r.right_votes r.total
    → (share + (100 - share) ≡ 100)
      × IsClose
          (side_of side (record { left_share = share; right_share = 100 - share }))
          (votes_of side r)
          r.total
by_side r left share h = (h.0, h.1)
by_side r right share h = (h.0, h.2)

-- Where the votes of the two sides are all there are and there are some, the two shares are whole
-- numbers that add up to 100, and each is at most half a point off its side's exact share.
pub share_percent-IsClose :
    (r : DailyResults) (side : DailySide)
    → r.left_votes + r.right_votes ≡ r.total
    → 0 < r.total
    → (share_percent r left + share_percent r right ≡ 100)
      × IsClose (share_percent r side) (votes_of side r) r.total
unfolding share_percent percents
share_percent-IsClose r side e h =
    let some_votes : (r.total == 0) ≡ false = ground arith in
    let close = left-IsClose r.left_votes r.total h in
    let b = round_div-bounds (r.left_votes * 100) r.total h in
    let small : round_div (r.left_votes * 100) r.total ≤ 100 =
      share-le _ r.left_votes r.total h (omega arith) b.0 in
    rw some_votes
      (by_side r side _ (side-IsClose _ r.left_votes r.right_votes r.total small e close))
