-- ===== src/Battle/Run/Laws.antt =====
-- One pick of a run (frontend/lib/home-battles.ts): what it saves, what it leaves on screen.
use rank_verse.Base.{◌≡◌, Bool, true, false, none, some, [], arith}
use rank_verse.Battle.Run.{Slot, RunState, at, pick_payload, pick_in_run}

module _ {ℓ} {T : Type ℓ} where
  -- A finished run has an empty queue and its champion as winner; an unfinished one has no winner.
  abbrev pub IsSettled : Bool → RunState T → Type ℓ
  IsSettled true run = (run.queue ≡ []) × (run.winner ≡ some (at run.slots run.champ))
  IsSettled false run = run.winner ≡ none

  abbrev pub IsValid : RunState T → Type ℓ
  IsValid run = IsSettled run.done run

  -- A pick on a run keeps queue, champion and winner consistent.
  pub pick_in_run-IsValid :
      (run : RunState T) (side : Slot) → IsValid run → IsValid (pick_in_run run side)
  unfolding pick_in_run
  pick_in_run-IsValid run side v = ground arith

  -- While a run goes on, the champion of a pair is the winner that was saved for the pair before.
  pub pick_payload-pick_in_run :
      (run : RunState T) (side next : Slot)
      → run.done ≡ false
      → (pick_payload (pick_in_run run side) next).champion ≡ (pick_payload run side).winner
  unfolding pick_payload pick_in_run
  pick_payload-pick_in_run run side next h = ground arith
