-- ===== src/Battle/PickMark.antt =====
-- frontend/components/battle/PickMark.tsx: `useBattlePick`, the pick animation. `waiting` holds the
-- `advance` callbacks whose request and minimum delay are pending, `holding` those whose check mark
-- is shown; the runtime may resume any of them, the k-th by `settle k` or `hold_over k`.
use rank_verse.Base.{
  ℕ, zero, suc, Bool, true, false, Option, none, some, List, [], ◌∷◌, ◌++◌, if◌then◌else◌,
}

pub data PickPhase : Type 0 where
  loading done : PickPhase

pub record Picker {ℓ κ} (S : Type ℓ) (A : Type κ) : Type (ℓ ⊔ κ) where
  pub picked : Option S
  pub phase : Option PickPhase
  pub busy : Bool
  pub mounted : Bool
  pub waiting : List A
  pub holding : List A

module _ {ℓ} {A : Type ℓ} where
  -- The k-th pending callback, and the others.
  abbrev pub pull : ℕ → List A → Option (A × List A)
  pull k [] = none
  pull zero (act ∷ rest) = some (act, rest)
  pull (suc k) (act ∷ rest) = elim (pull k rest) [
    | none ↦ none
    | some (found, others) ↦ some (found, act ∷ others)
  ]

module _ {ℓ κ} {S : Type ℓ} {A : Type κ} where
  abbrev pub idle : Picker S A
  idle = record {
    picked = none;
    phase = none;
    busy = false;
    mounted = true;
    waiting = [];
    holding = [];
  }

  unfoldable pub start : S → A → Picker S A → Picker S A
  start side act p = if p.busy then p else record p {
    busy = true;
    picked = some side;
    phase = some loading;
    waiting = p.waiting ++ act ∷ [];
  }

  -- The request and the minimum delay are over.
  unfoldable pub settle : ℕ → Picker S A → Picker S A
  settle k p = elim (pull k p.waiting) [
    | none ↦ p
    | some (act, rest) ↦
        if p.mounted
        then record p { waiting = rest; phase = some done; holding = p.holding ++ act ∷ [] }
        else record p { waiting = rest }
  ]

  -- The check mark has been shown; the callback is returned if it is called.
  unfoldable pub hold_over : ℕ → Picker S A → Picker S A × Option A
  hold_over k p = elim (pull k p.holding) [
    | none ↦ (p, none)
    | some (act, rest) ↦
        if p.mounted
        then (record p { busy = false; holding = rest; picked = none; phase = none }, some act)
        else (record p { busy = false; holding = rest }, none)
  ]

  -- The effect and its cleanup.
  abbrev pub set_mounted : Bool → Picker S A → Picker S A
  set_mounted b p = record p { mounted = b }
