-- ===== src/Battle/WinnerStays/Refines.antt =====
-- The battle component (frontend/components/battle/WinnerStaysBattle.tsx) and the home page's run
-- (frontend/lib/home-battles.ts) are two implementations of one game.
use rank_verse.Base.{
  ◌+◌, ◌-◌, min, ◌≡◌, Bool, true, false, some, List, [], ◌∷◌, arith, leb, length, drop, get_elem?,
  get_elem?-drop, drop-add_one, lt_of_drop, le_of_drop-nil, Bool-cases, List-cases, inl, inr, ap,
  ◌∙◌,
}
use rank_verse.Battle.Run.{Slot, RunState, other, at, start_run, pick_payload, pick_in_run}
use rank_verse.Battle.Run.Play.{play, pick_in_run_done}
use rank_verse.Battle.WinnerStays.{
  Side, left, right, Stays, start, is_done, champion_item, challenger_item, pick, pick_all,
}

module _ {ℓ} {T : Type ℓ} where
  -- The slot in which the entry on this side stands in a run: the champion is on the left.
  abbrev pub slot_of : RunState T → Side → Slot
  slot_of run left = run.champ
  slot_of run right = other run.champ

  abbrev unplayed : Bool → RunState T → List T
  unplayed true run = []
  unplayed false run = at run.slots (other run.champ) ∷ run.queue

  -- The component's indexes point at what the run holds.
  pub record Agrees (items : List T) (s : Stays) (run : RunState T) : Type ℓ where
    pub champion : champion_item items s ≡ some (at run.slots run.champ)
    pub ahead : drop s.step items ≡ unplayed run.done run
    pub over : is_done items s ≡ run.done

  -- What the component has ahead while the run goes on.
  module _ (items : List T) (s : Stays) (run : RunState T) (d : run.done ≡ false)
      (a : Agrees items s run) where
    facing : drop s.step items ≡ at run.slots (other run.champ) ∷ run.queue
    facing = ground arith

    challenger : get_elem? items s.step ≡ some (at run.slots (other run.champ))
    challenger = get_elem?-drop s.step items facing

    behind : drop (s.step + 1) items ≡ run.queue
    behind = drop-add_one s.step items facing

    over_next : leb (length items) (s.step + 1) ≡ (elim run.queue [ [] ↦ true | _ ∷ _ ↦ false ])
    over_next = elim (List-cases run.queue) [
      | inl q ↦ rw q (ground (arith, le_of_drop-nil (s.step + 1) items (behind ∙ q)))
      | inr (next, rest, q) ↦ rw q (ground (arith, lt_of_drop (s.step + 1) items (behind ∙ q)))
    ]

    Agrees-more :
        (side : Side) → Agrees items (pick items side s) (pick_in_run run (slot_of run side))
    unfolding pick pick_in_run
    Agrees-more left = ground (arith, challenger, behind, over_next)
    Agrees-more right = ground (arith, challenger, behind, over_next)

  pick_done :
      (items : List T) (s : Stays) (side : Side) → is_done items s ≡ true → pick items side s ≡ s
  unfolding pick
  pick_done items s side d = ground arith

  -- A pick on either side takes the component where it takes the run.
  pub pick-Agrees :
      (items : List T) (s : Stays) (run : RunState T) (side : Side)
      → Agrees items s run
      → Agrees items (pick items side s) (pick_in_run run (slot_of run side))
  pick-Agrees items s run side a = elim (Bool-cases run.done) [
    | inl d ↦ rw (pick_done items s side (a.over ∙ d), pick_in_run_done run (slot_of run side) d) a
    | inr d ↦ Agrees-more items s run d a side
  ]

  -- The slots that the sides name, pick by pick.
  abbrev pub slots_of : RunState T → List Side → List Slot
  slots_of run [] = []
  slots_of run (side ∷ sides) =
      slot_of run side ∷ slots_of (pick_in_run run (slot_of run side)) sides

  pick_all-Agrees_from :
      (items : List T) (s : Stays) (run : RunState T) (sides : List Side)
      → Agrees items s run
      → Agrees items (pick_all items sides s) (play run (slots_of run sides))
  unfolding pick_all play
  pick_all-Agrees_from items s run [] a = a
  pick_all-Agrees_from items s run (side ∷ sides) a =
      pick_all-Agrees_from items (pick items side s) (pick_in_run run (slot_of run side)) sides
        (pick-Agrees items s run side a)

  start-Agrees : (a b : T) (rest : List T) → Agrees (a ∷ b ∷ rest) start (start_run a b rest)
  unfolding start_run
  start-Agrees a b rest = ground arith

  -- Whatever the viewer picks, the component and the run agree at every moment: the same champion,
  -- the same entries ahead in the same order, and over at the same pick.
  pub pick_all-Agrees :
      (a b : T) (rest : List T) (sides : List Side)
      → let run = start_run a b rest in
        Agrees (a ∷ b ∷ rest) (pick_all (a ∷ b ∷ rest) sides start) (play run (slots_of run sides))
  pick_all-Agrees a b rest sides =
      pick_all-Agrees_from (a ∷ b ∷ rest) start (start_run a b rest) sides (start-Agrees a b rest)

  challenger_lem :
      (items : List T) (s : Stays)
      → is_done items s ≡ false
      → challenger_item items s ≡ get_elem? items s.step
  challenger_lem items s d =
      let e : min s.step (length items - 1) ≡ s.step = ground arith in ap (get_elem? items) e

  -- While the game goes on, the pair that the component saves is the run's payload: its champion,
  -- its challenger and the chosen one of the two.
  pick_payload-Agrees :
      (items : List T) (s : Stays) (run : RunState T) (side : Side)
      → Agrees items s run
      → run.done ≡ false
      → let payload = pick_payload run (slot_of run side) in
        (champion_item items s ≡ some payload.champion)
        × (challenger_item items s ≡ some payload.challenger)
        × (some payload.winner
            ≡ (elim side [ left ↦ champion_item items s | right ↦ challenger_item items s ]))
  unfolding pick_payload
  pick_payload-Agrees items s run left a d =
      ground (arith, challenger items s run d a, challenger_lem items s)
  pick_payload-Agrees items s run right a d =
      ground (arith, challenger items s run d a, challenger_lem items s)
