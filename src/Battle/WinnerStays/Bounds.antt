-- ===== src/Battle/WinnerStays/Bounds.antt =====
-- The counters of the battle component (frontend/components/battle/WinnerStaysBattle.tsx).
use rank_verse.Base.{ℕ, ◌+◌, ◌≤◌, ◌<◌, ◌≡◌, refl, List, [], ◌∷◌, arith, length}
use rank_verse.Battle.WinnerStays.{Side, left, right, Stays, start, pick, pick_all}

module _ {ℓ} {T : Type ℓ} (items : List T) where
  -- The champion is an entry that the run has passed, its streak is at most the picks made, and as
  -- many picks were made as steps taken; the run never steps past the end.
  pub record IsSound (s : Stays) : Type 0 where
    pub passed : s.champion < s.step
    pub counted : s.voted + 1 ≡ s.step
    pub capped : s.streak ≤ s.voted
    pub ended : s.step ≤ length items
    pub crowned : 0 < s.voted → 0 < s.streak

  pub start-IsSound : 1 ≤ length items → IsSound start
  start-IsSound h = ground arith

  pub pick-IsSound : (side : Side) (s : Stays) → IsSound s → IsSound (pick items side s)
  unfolding pick
  pick-IsSound left s v = ground arith
  pick-IsSound right s v = ground arith

  -- Picks keep the counters sound.
  pick_all-IsSound : (sides : List Side) (s : Stays) → IsSound s → IsSound (pick_all items sides s)
  unfolding pick_all
  pick_all-IsSound [] s v = v
  pick_all-IsSound (side ∷ sides) s v =
      pick_all-IsSound sides (pick items side s) (pick-IsSound side s v)

  -- The wins since the champion last changed.
  abbrev streak_from : ℕ → List Side → ℕ
  streak_from n [] = n
  streak_from n (left ∷ sides) = streak_from (n + 1) sides
  streak_from n (right ∷ sides) = streak_from 1 sides

  pick_all-streak_from :
      (sides : List Side) (s : Stays)
      → s.step + length sides ≤ length items
      → (pick_all items sides s).streak ≡ streak_from s.streak sides
  unfolding pick_all pick
  pick_all-streak_from [] s h = refl
  pick_all-streak_from (left ∷ sides) s h =
      ground (arith, pick_all-streak_from sides (pick items left s))
  pick_all-streak_from (right ∷ sides) s h =
      ground (arith, pick_all-streak_from sides (pick items right s))
