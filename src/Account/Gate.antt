-- ===== src/Account/Gate.antt =====
-- frontend/contexts/AuthGateContext.tsx: an action that needs a login waits for it. An action is
-- opaque; `ran` lists the actions that were run, in order.
pub mod Laws
use rank_verse.Base.{Bool, true, false, Option, none, some, List, [], ◌∷◌, ◌++◌}

pub record Gate {ℓ} (A : Type ℓ) : Type ℓ where
  pub is_modal_open : Bool
  pub has_reason : Bool
  pub pending : Option A
  pub ran : List A

-- `require` carries whether the viewer is signed in at that render.
pub data Event {ℓ} (A : Type ℓ) : Type ℓ where
  require : Bool → A → Event A
  open_login_modal close_modal run_pending_action : Event A

module _ {ℓ} {A : Type ℓ} where
  abbrev pub closed : Gate A
  closed = record { is_modal_open = false; has_reason = false; pending = none; ran = [] }

  unfoldable pub require_auth : Bool → A → Gate A → Gate A
  require_auth true action g = record g { ran = g.ran ++ action ∷ [] }
  require_auth false action g = record g {
    pending = some action;
    has_reason = true;
    is_modal_open = true;
  }

  unfoldable pub open_modal : Gate A → Gate A
  open_modal g = record g { pending = none; has_reason = false; is_modal_open = true }

  unfoldable pub close : Gate A → Gate A
  close g = record g { pending = none; is_modal_open = false; has_reason = false }

  abbrev pub waiting : Option A → List A
  waiting none = []
  waiting (some action) = action ∷ []

  unfoldable pub run_pending : Gate A → Gate A
  run_pending g = record {
    is_modal_open = false;
    has_reason = false;
    pending = none;
    ran = g.ran ++ waiting g.pending;
  }

  unfoldable pub step : Event A → Gate A → Gate A
  unfolding require_auth open_modal close run_pending
  step (require signed_in action) g = require_auth signed_in action g
  step open_login_modal g = open_modal g
  step close_modal g = close g
  step run_pending_action g = run_pending g

  unfoldable pub run : List (Event A) → Gate A → Gate A
  unfolding step
  run [] g = g
  run (e ∷ es) g = run es (step e g)
