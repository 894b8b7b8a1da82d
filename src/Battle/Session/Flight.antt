-- ===== src/Battle/Session/Flight.antt =====
-- Picks in flight (frontend/components/battle/PickMark.tsx, WinnerStaysBattle.tsx): their number,
-- and what they find when they land.
use rank_verse.Base.{
  ℕ, zero, suc, ◌+◌, ◌≤◌, ◌≡◌, refl, Bool, true, false, Option, none, some, List, [], ◌∷◌, ◌++◌,
  arith, length, sym, ap, ◌∙◌,
}
use rank_verse.Battle.PickMark.{idle, hold_over}
use rank_verse.Battle.WinnerStays.{Side, Stays, start, is_done, pick, pick_all, pick_all-append}
use rank_verse.Battle.Session.{
  Session, Event, click, settled, held, save_failed, mount, opening, step, run,
}

module _ {ℓ} {T : Type ℓ} (items : List T) where
  -- A pick in flight was made on the present step, in a run that is not over.
  abbrev IsFresh : Side × ℕ → Stays → Type 0
  IsFresh act s = (act.1 ≡ s.step) × (is_done items s ≡ false)

  abbrev Flies : List (Side × ℕ) → List (Side × ℕ) → Bool → Stays → Type 0
  Flies [] [] busy s = Unit
  Flies (act ∷ []) [] busy s = (busy ≡ true) × IsFresh act s
  Flies [] (act ∷ []) busy s = (busy ≡ true) × IsFresh act s
  Flies _ _ _ _ = ⊥

  -- At most one pick is in flight, and no other can start meanwhile.
  abbrev pub IsFlight : Session T → Type 0
  IsFlight s = Flies s.picker.waiting s.picker.holding s.picker.busy s.stays

  Flies-length :
      (waiting holding : List (Side × ℕ)) (busy : Bool) (s : Stays)
      → Flies waiting holding busy s
      → length waiting + length holding ≤ 1
  Flies-length waiting holding busy s f = ground arith

  module _ (has_token : Bool) where
    step-IsFlight : (e : Event) (s : Session T) → IsFlight s → IsFlight (step items has_token e s)
    unfolding step
    step-IsFlight (click winner) s f = ground arith
    step-IsFlight (settled zero) s f = ground arith
    step-IsFlight (settled (suc k)) s f = ground arith
    step-IsFlight (held zero) s f = ground arith
    step-IsFlight (held (suc k)) s f = ground arith
    step-IsFlight (save_failed message) s f = f
    step-IsFlight (mount m) s f = f

    -- The side of the pick that lands with an event, if one does.
    abbrev landing : Option (Side × ℕ) → List Side
    landing none = []
    landing (some (winner, _)) = winner ∷ []

    abbrev pub landed : Event → Session T → List Side
    landed (held k) s = landing (hold_over k s.picker).1
    landed _ s = []

    abbrev pub all_landed : List Event → Session T → List Side
    all_landed [] s = []
    all_landed (e ∷ es) s = landed e s ++ all_landed es (step items has_token e s)

    step-stays :
        (e : Event) (s : Session T)
        → IsFlight s
        → (step items has_token e s).stays ≡ pick_all items (landed e s) s.stays
    unfolding step pick_all pick
    step-stays (click winner) s f = ground arith
    step-stays (settled k) s f = refl
    step-stays (held zero) s f = ground arith
    step-stays (held (suc k)) s f = ground arith
    step-stays (save_failed message) s f = refl
    step-stays (mount m) s f = refl

    run-IsFlight :
        (es : List Event) (s : Session T) → IsFlight s → IsFlight (run items has_token es s)
    unfolding run
    run-IsFlight [] s f = f
    run-IsFlight (e ∷ es) s f = run-IsFlight es (step items has_token e s) (step-IsFlight e s f)

    run-stays :
        (es : List Event) (s : Session T)
        → IsFlight s
        → (run items has_token es s).stays ≡ pick_all items (all_landed es s) s.stays
    unfolding run pick_all
    run-stays [] s f = refl
    run-stays (e ∷ es) s f =
        let s' = step items has_token e s in
        let later = all_landed es s' in
        run-stays es s' (step-IsFlight e s f)
        ∙ ap (pick_all items later) (step-stays e s f)
        ∙ sym (pick_all-append items (landed e s) later s.stays)

    -- The order of events is free (clicks during an animation, callbacks in any order, unmounting and
    -- failed requests among them): the counters are those of the picks that landed, made one by one.
    pub opening-run-stays :
        (es : List Event)
        → (run items has_token es (opening items has_token)).stays
          ≡ pick_all items (all_landed es (opening items has_token)) start
    opening-run-stays es = run-stays es (opening items has_token) tt

    -- Whatever the events, at most one pick is in flight.
    opening-run-in_flight :
        (es : List Event)
        → let p = (run items has_token es (opening items has_token)).picker in
          length p.waiting + length p.holding ≤ 1
    opening-run-in_flight es = Flies-length _ _ _ _ (run-IsFlight es (opening items has_token) tt)

    -- A click on an idle battle that is not over is answered: when its request and its check mark
    -- are over, exactly that pick was made and the animation is idle again.
    click_lands :
        (winner : Side) (s : Session T)
        → s.picker ≡ idle
        → is_done items s.stays ≡ false
        → let t = run items has_token (click winner ∷ settled 0 ∷ held 0 ∷ []) s in
          (t.stays ≡ pick items winner s.stays) × (t.picker ≡ idle)
    unfolding run step pick
    click_lands winner s p d = ground arith
