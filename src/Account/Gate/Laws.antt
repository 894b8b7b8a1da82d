-- ===== src/Account/Gate/Laws.antt =====
-- Which actions the login gate runs (frontend/contexts/AuthGateContext.tsx).
use rank_verse.Base.{
  ◌≡◌, refl, Bool, true, false, Option, none, some, List, [], ◌∷◌, ◌++◌, arith, sym, ◌∙◌, ap, map,
}
use mathlib.Core.List.{append-nil, append_assoc}
use rank_verse.Account.Gate.{
  Gate, Event, require, open_login_modal, close_modal, run_pending_action, closed, step, run,
}

module _ {ℓ} {A : Type ℓ} where
  abbrev is_there : Option A → Bool
  is_there none = false
  is_there (some action) = true

  -- The modal gives a reason exactly while an action waits, and none waits behind a closed modal.
  pub record IsConsistent (g : Gate A) : Type ℓ where
    pub reason : g.has_reason ≡ is_there g.pending
    pub shown : g.is_modal_open ≡ false → g.pending ≡ none

  step-IsConsistent : (e : Event A) {g : Gate A} → IsConsistent g → IsConsistent (step e g)
  unfolding step
  step-IsConsistent (require true action) h = ground arith
  step-IsConsistent (require false action) h = ground arith
  step-IsConsistent open_login_modal h = ground arith
  step-IsConsistent close_modal h = ground arith
  step-IsConsistent run_pending_action h = ground arith

  run-keeps : (es : List (Event A)) {g : Gate A} → IsConsistent g → IsConsistent (run es g)
  unfolding run
  run-keeps [] h = h
  run-keeps (e ∷ es) h = run-keeps es (step-IsConsistent e h)

  -- Whatever the events, the modal gives a reason exactly while an action waits, and no action waits
  -- behind a closed modal.
  run-IsConsistent : (es : List (Event A)) → IsConsistent (run es closed)
  run-IsConsistent es = run-keeps es (record { reason = refl; shown = λ h. refl })

  run-quiet :
      (quiet : List A) (es : List (Event A)) (g : Gate A)
      → run (map (require true) quiet ++ es) g ≡ run es (record g { ran = g.ran ++ quiet })
  unfolding run
  run-quiet [] es g = ap (λ r. run es (record g { ran = r })) (sym (append-nil g.ran))
  run-quiet (a ∷ quiet) es g =
      run-quiet quiet es (step (require true a) g)
      ∙ ap (λ r. run es (record g { ran = r })) (append_assoc g.ran (a ∷ []) quiet)

  -- A guest's action, then any actions of a signed-in viewer, which run at once.
  abbrev pub asked : A → List A → List (Event A) → List (Event A)
  asked action quiet es = require false action ∷ map (require true) quiet ++ es

  -- A guest's action runs once, at the login, also if the login is reported twice; and never once the
  -- modal was closed or opened anew, or another guest's action took its place, which is then the one
  -- that runs.
  pub run-asked :
      (action other : A) (quiet : List A) (g : Gate A)
      → ((run (asked action quiet (run_pending_action ∷ run_pending_action ∷ [])) g).ran
          ≡ (g.ran ++ quiet) ++ action ∷ [])
        × ((run (asked action quiet (close_modal ∷ run_pending_action ∷ [])) g).ran
            ≡ g.ran ++ quiet)
        × ((run (asked action quiet (open_login_modal ∷ run_pending_action ∷ [])) g).ran
            ≡ g.ran ++ quiet)
        × ((run (asked action quiet (require false other ∷ run_pending_action ∷ [])) g).ran
            ≡ (g.ran ++ quiet) ++ other ∷ [])
  unfolding run
  run-asked action other quiet g = (
    ap (λ k. k.ran) (run-quiet quiet _ (step (require false action) g)) ∙ append-nil _,
    ap (λ k. k.ran) (run-quiet quiet _ (step (require false action) g)) ∙ append-nil _,
    ap (λ k. k.ran) (run-quiet quiet _ (step (require false action) g)) ∙ append-nil _,
    ap (λ k. k.ran) (run-quiet quiet _ (step (require false action) g)),
  )
