-- ===== src/Battle/WinnerStays.antt =====
-- frontend/components/battle/WinnerStaysBattle.tsx: the run that the battle component owns. `items`
-- is the component's list of entries, and the state holds indexes into it. A pick is the click's
-- synchronous part and, when its animation is over, `advance`; Battle.Session has the two apart.
pub mod Refines
pub mod Bounds
use rank_verse.Base.{
  ℕ, ◌+◌, ◌-◌, min, Bool, Option, List, [], ◌∷◌, ◌++◌, ◌≡◌, refl, leb, length, get_elem?,
  if◌then◌else◌,
}

-- "left" is the champion, "right" the challenger
pub data Side : Type 0 where
  left right : Side

pub record Stays : Type 0 where
  pub champion : ℕ
  pub step : ℕ
  pub streak : ℕ
  pub voted : ℕ

abbrev pub start : Stays
start = record { champion = 0; step = 1; streak = 0; voted = 0 }

-- The callback of `pickAnim.start`: `captured` is the `step` of the render that the click came from.
unfoldable pub advance : Side → ℕ → Stays → Stays
advance left captured s = record s { streak = s.streak + 1; voted = s.voted + 1; step = s.step + 1 }
advance right captured s = record s {
  champion = captured;
  streak = 1;
  voted = s.voted + 1;
  step = s.step + 1;
}

module _ {ℓ} {T : Type ℓ} (items : List T) where
  -- `step >= items.length`
  abbrev pub is_done : Stays → Bool
  is_done s = leb (length items) s.step

  abbrev pub champion_item : Stays → Option T
  champion_item s = get_elem? items s.champion

  abbrev pub challenger_item : Stays → Option T
  challenger_item s = get_elem? items (min s.step (length items - 1))

  -- A pick whose animation is let run to its end.
  unfoldable pub pick : Side → Stays → Stays
  unfolding advance
  pick side s = if is_done s then s else advance side s.step s

  unfoldable pub pick_all : List Side → Stays → Stays
  pick_all [] s = s
  pick_all (side ∷ sides) s = pick_all sides (pick side s)

  pub pick_all-append :
      (xs ys : List Side) (s : Stays) → pick_all (xs ++ ys) s ≡ pick_all ys (pick_all xs s)
  unfolding pick_all
  pick_all-append [] ys s = refl
  pick_all-append (x ∷ xs) ys s = pick_all-append xs ys (pick x s)
