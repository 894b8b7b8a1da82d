-- ===== src/Battle/Run.antt =====
-- frontend/lib/home-battles.ts: one in-place "winner stays" run.
pub mod Laws
pub mod Play
use rank_verse.Base.{ℕ, ◌+◌, Bool, true, false, Option, none, some, List, [], ◌∷◌, if◌then◌else◌}

-- `Slot = 0 | 1`
pub data Slot : Type 0 where
  zeroth first : Slot

pub record RunState {ℓ} (T : Type ℓ) : Type ℓ where
  pub slots : T × T
  pub champ : Slot
  pub queue : List T
  pub done : Bool
  pub winner : Option T
  pub picks : ℕ

pub record PickPayload {ℓ} (T : Type ℓ) : Type ℓ where
  pub champion : T
  pub challenger : T
  pub winner : T

-- `champ === 0 ? 1 : 0`
abbrev pub other : Slot → Slot
other zeroth = first
other first = zeroth

module _ {ℓ} {T : Type ℓ} where
  -- `slots[side]`
  abbrev pub at : T × T → Slot → T
  at s zeroth = s.0
  at s first = s.1

  -- `side === 0 ? [winner, next] : [next, winner]`
  abbrev pub seat : Slot → T → T → T × T
  seat zeroth stays next = (stays, next)
  seat first stays next = (next, stays)

  unfoldable pub start_run : T → T → List T → RunState T
  start_run a b rest = record {
    slots = (a, b);
    champ = zeroth;
    queue = rest;
    done = false;
    winner = none;
    picks = 0;
  }

  unfoldable pub pick_payload : RunState T → Slot → PickPayload T
  pick_payload run side = record {
    champion = at run.slots run.champ;
    challenger = at run.slots (other run.champ);
    winner = at run.slots side;
  }

  -- the body of `pickInRun` after its guard, by the queue
  abbrev settle : RunState T → Slot → List T → RunState T
  settle run side [] = record run {
    champ = side;
    done = true;
    winner = some (at run.slots side);
    picks = run.picks + 1;
  }
  settle run side (next ∷ rest) = record {
    slots = seat side (at run.slots side) next;
    champ = side;
    queue = rest;
    done = false;
    winner = none;
    picks = run.picks + 1;
  }

  unfoldable pub pick_in_run : RunState T → Slot → RunState T
  pick_in_run run side = if run.done then run else settle run side run.queue
