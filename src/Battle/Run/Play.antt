-- ===== src/Battle/Run/Play.antt =====
-- Whole runs (frontend/lib/home-battles.ts): a run is played by the list of the chosen slots.
use mathlib.Core.List.{Perm}
use mathlib.Core.List.Perm
use rank_verse.Base.{
  ◌+◌, min, ◌≡◌, refl, Bool, true, false, List, [], ◌∷◌, ◌++◌, arith, inl, inr, Bool-cases,
  List-cases, ltb, length, if◌then◌else◌,
}
use rank_verse.Battle.Run.{Slot, zeroth, first, RunState, other, at, settle, pick_in_run}

module _ {ℓ} {T : Type ℓ} where
  -- The run after the viewer has chosen these slots, one after another.
  unfoldable pub play : RunState T → List Slot → RunState T
  play run [] = run
  play run (side ∷ sides) = play (pick_in_run run side) sides

  -- The entries that the picks of a run eliminate, in order.
  unfoldable pub losers : RunState T → List Slot → List T
  losers run [] = []
  losers run (side ∷ sides) =
      let rest = losers (pick_in_run run side) sides in
      if run.done then [] else at run.slots (other side) ∷ rest

  -- The entries that can still win a run.
  abbrev pub standing : Bool → RunState T → List T
  standing true run = at run.slots run.champ ∷ []
  standing false run = run.slots.0 ∷ run.slots.1 ∷ run.queue

  abbrev pub contenders : RunState T → List T
  contenders run = standing run.done run

  pub pick_in_run_done :
      (run : RunState T) (side : Slot) → run.done ≡ true → pick_in_run run side ≡ run
  unfolding pick_in_run
  pick_in_run_done run side d = rw d

  pub play_done : (run : RunState T) (sides : List Slot) → run.done ≡ true → play run sides ≡ run
  unfolding play
  play_done run [] d = refl
  play_done run (side ∷ sides) d = rw (pick_in_run_done run side d) (play_done run sides d)

  settle-perm :
      (run : RunState T) (side : Slot) (queue : List T)
      → Perm
          (at run.slots (other side) ∷ contenders (settle run side queue))
          (run.slots.0 ∷ run.slots.1 ∷ queue)
  settle-perm run zeroth [] = Perm.swap _ _ _
  settle-perm run first [] = Perm.refl _
  settle-perm run zeroth (next ∷ rest) = Perm.swap _ _ _
  settle-perm run first (next ∷ rest) = Perm.cons _ (Perm.swap _ _ _)

  pub pick_in_run-perm :
      (run : RunState T) (side : Slot)
      → run.done ≡ false
      → Perm (at run.slots (other side) ∷ contenders (pick_in_run run side)) (contenders run)
  unfolding pick_in_run
  pick_in_run-perm run side d = rw d (settle-perm run side run.queue)

  losers_done : (run : RunState T) (sides : List Slot) → run.done ≡ true → losers run sides ≡ []
  unfolding losers
  losers_done run [] d = refl
  losers_done run (side ∷ sides) d = rw d

  losers-perm_done :
      (run : RunState T) (sides : List Slot)
      → run.done ≡ true
      → Perm (losers run sides ++ contenders (play run sides)) (contenders run)
  losers-perm_done run sides d = rw (losers_done run sides d, play_done run sides d) (Perm.refl _)

  -- Whatever is picked, every entry of a run is counted once: those that the picks eliminated and
  -- those that can still win are, together, the ones that could win before.
  pub losers-perm :
      (run : RunState T) (sides : List Slot)
      → Perm (losers run sides ++ contenders (play run sides)) (contenders run)
  unfolding losers play
  losers-perm run [] = Perm.refl _
  losers-perm run (side ∷ sides) = elim (Bool-cases run.done) [
    | inl d ↦ losers-perm_done run (side ∷ sides) d
    | inr d ↦
        Perm.trans
          (simp d
            (Perm.cons (at run.slots (other side)) (losers-perm (pick_in_run run side) sides)))
          (pick_in_run-perm run side d)
  ]

  pick_in_run_last :
      (run : RunState T) (side : Slot)
      → run.done ≡ false
      → run.queue ≡ []
      → (pick_in_run run side).done ≡ true
  unfolding pick_in_run
  pick_in_run_last run side d q = ground arith

  pick_in_run_more :
      (run : RunState T) (side : Slot) {next : T} {rest : List T}
      → run.done ≡ false
      → run.queue ≡ next ∷ rest
      → ((pick_in_run run side).done ≡ false) × ((pick_in_run run side).queue ≡ rest)
  unfolding pick_in_run
  pick_in_run_more run side d q = ground arith

  -- A run that is going on is over exactly when more slots were chosen than its queue has entries.
  pub play-done :
      (run : RunState T) (sides : List Slot)
      → run.done ≡ false
      → (play run sides).done ≡ ltb (length run.queue) (length sides)
  unfolding play
  play-done run [] d = ground arith
  play-done run (side ∷ sides) d = elim (List-cases run.queue) [
    | inl q ↦
        let e = pick_in_run_last run side d q in
        rw (play_done (pick_in_run run side) sides e, q) (ground arith)
    | inr (next, rest, q) ↦
        let (d', q') = pick_in_run_more run side d q in
        rw (play-done (pick_in_run run side) sides d', q', q) (ground arith)
  ]

  pick_in_run-picks :
      (run : RunState T) (side : Slot)
      → run.done ≡ false
      → (pick_in_run run side).picks ≡ run.picks + 1
  unfolding pick_in_run
  pick_in_run-picks run side d = ground arith

  -- Picks are counted until the run is over and not after: at most one more than the queue is long.
  play-picks :
      (run : RunState T) (sides : List Slot)
      → run.done ≡ false
      → (play run sides).picks ≡ run.picks + min (length sides) (length run.queue + 1)
  unfolding play
  play-picks run [] d = omega arith
  play-picks run (side ∷ sides) d = elim (List-cases run.queue) [
    | inl q ↦
        let e = pick_in_run_last run side d q in
        rw (play_done (pick_in_run run side) sides e, pick_in_run-picks run side d, q) (omega arith)
    | inr (next, rest, q) ↦
        let (d', q') = pick_in_run_more run side d q in
        rw (play-picks (pick_in_run run side) sides d', pick_in_run-picks run side d, q', q)
          (omega arith)
  ]
