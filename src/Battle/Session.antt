-- ===== src/Battle/Session.antt =====
-- frontend/components/battle/WinnerStaysBattle.tsx: the component with its pick animation, as a
-- machine over the events that reach it. Each event sees the state that the events before it left
-- (React renders between two of them). An item out of range is `none`.
pub mod Flight
use rank_verse.Base.{
  ℕ, String, Bool, true, false, Option, none, some, List, [], ◌∷◌, ◌++◌, ◌||◌, if◌then◌else◌,
}
use rank_verse.Battle.PickMark.{Picker, PickPhase, idle, settle, hold_over, set_mounted}
use rank_verse.Battle.PickMark
use rank_verse.Battle.WinnerStays.{
  Side, Stays, start, advance, is_done, champion_item, challenger_item,
}

-- The arguments of `onPick` and of `savePick`.
pub record Saved {ℓ} (T : Type ℓ) : Type ℓ where
  pub champion : Option T
  pub challenger : Option T
  pub winner : Side

-- `reported` are the calls of `onPick`, `saved` the requests sent.
pub record Session {ℓ} (T : Type ℓ) : Type ℓ where
  pub stays : Stays
  pub picker : Picker Side (Side × ℕ)
  pub error : Option String
  pub reported : List (Saved T)
  pub saved : List (Saved T)

pub data Event : Type 0 where
  click : Side → Event
  settled : ℕ → Event
  held : ℕ → Event
  save_failed : String → Event
  mount : Bool → Event

abbrev is_playing : Option PickPhase → Bool
is_playing none = false
is_playing (some _) = true

-- The request of a viewer who has a token (an empty one is none).
abbrev save {ℓ} : {T : Type ℓ} → Bool → Saved T → List (Saved T) → List (Saved T)
save false pair sent = sent
save true pair sent = sent ++ pair ∷ []

-- `advance()`, with the winner and the step that its closure captured.
abbrev resume : Option (Side × ℕ) → Stays → Stays
resume none s = s
resume (some (winner, captured)) s = advance winner captured s

module _ {ℓ} {T : Type ℓ} (items : List T) (has_token : Bool) where
  abbrev pub opening : Session T
  opening = record { stays = start; picker = idle; error = none; reported = []; saved = [] }

  abbrev pair_of : Side → Stays → Saved T
  pair_of winner s = record {
    champion = champion_item items s;
    challenger = challenger_item items s;
    winner = winner;
  }

  unfoldable pub step : Event → Session T → Session T
  unfolding PickMark.start settle hold_over advance
  step (click winner) s =
      if is_done items s.stays || is_playing s.picker.phase then s else record s {
        reported = s.reported ++ pair_of winner s.stays ∷ [];
        saved = save has_token (pair_of winner s.stays) s.saved;
        picker = PickMark.start winner (winner, s.stays.step) s.picker;
      }
  step (settled k) s = record s { picker = settle k s.picker }
  step (held k) s =
      let (picker, call) = hold_over k s.picker in
      record s { picker = picker; stays = resume call s.stays }
  step (save_failed message) s = record s { error = some message }
  step (mount b) s = record s { picker = set_mounted b s.picker }

  pub run : List Event → Session T → Session T
  run [] s = s
  run (e ∷ es) s = run es (step e s)
