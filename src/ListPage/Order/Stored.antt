-- ===== src/ListPage/Order/Stored.antt =====
-- The order that frontend/components/ListItemsManager.tsx shows against the one that the server holds.
use rank_verse.Base.{sym}
use rank_verse.Base.{
  ℕ, zero, suc, ◌+◌, Bool, true, false, not, String, Option, none, some, List, [], ◌∷◌, map, str_eq,
  length, ◌==◌, Bool-cases, inl, inr,
}
use rank_verse.Base.Keep.{keep, keep-map, keep-perm}
use rank_verse.ListPage.Order.{
  Item, Manager, swap_at, persist_order, move_up, move_down, order_answered, handle_remove,
  remove_answered,
}
use mathlib.Core.List.{Perm}
use mathlib.Core.List.Perm

abbrev pub ids_of : List Item → List String
ids_of = map (λ i. i.id)

-- The component and the ids that the server holds, in its order.
pub record Page : Type 0 where
  pub manager : Manager
  pub stored : List String

-- What the owner does, and the server's answer: `none`, or the message of its refusal.
pub data Deed : Type 0 where
  up down : ℕ → Option String → Deed
  remove : String → Bool → Option String → Deed

abbrev without_id : String → List String → List String
without_id id ids = keep (λ k. not (str_eq k id)) ids

abbrev stored_order : Option (List String) → Option String → List String → List String
stored_order none answer ids = ids
stored_order (some sent) none ids = sent
stored_order (some sent) (some message) ids = ids

abbrev pub ordered : Option String → Manager × Option (List String) → List String → Page
ordered answer (m, none) stored = record { manager = m; stored = stored }
ordered answer (m, some sent) stored = record {
  manager = order_answered answer m;
  stored = stored_order (some sent) answer stored;
}

abbrev pub removed : Option String → Manager × Option String → List String → Page
removed answer (m, none) stored = record { manager = m; stored = stored }
removed none (m, some id) stored = record {
  manager = remove_answered none id m;
  stored = without_id id stored;
}
removed (some message) (m, some id) stored = record {
  manager = remove_answered (some message) id m;
  stored = stored;
}

unfoldable pub step : Bool → Deed → Page → Page
unfolding move_up move_down order_answered handle_remove remove_answered
step has_token (up i answer) p = ordered answer (move_up has_token i p.manager) p.stored
step has_token (down i answer) p = ordered answer (move_down has_token i p.manager) p.stored
step has_token (remove id confirmed answer) p =
    removed answer (handle_remove has_token confirmed id p.manager) p.stored

unfoldable pub run : Bool → List Deed → Page → Page
unfolding step
run has_token [] p = p
run has_token (d ∷ ds) p = run has_token ds (step has_token d p)

swap_at-perm {ℓ} : {A : Type ℓ} (i : ℕ) (xs : List A) → Perm (swap_at i xs) xs
swap_at-perm i [] = Perm.refl _
swap_at-perm zero (x ∷ []) = Perm.refl _
swap_at-perm (suc i) (x ∷ []) = Perm.refl _
swap_at-perm zero (x ∷ y ∷ xs) = Perm.swap x y xs
swap_at-perm (suc i) (x ∷ y ∷ xs) = Perm.cons x (swap_at-perm i (y ∷ xs))

-- The same items, whatever their order.
abbrev IsSame : Page → Type 0
IsSame p = Perm (ids_of p.manager.items) p.stored

persist_order-IsSame :
    (has_token : Bool) (answer : Option String) (new_items : List Item) (m : Manager)
    (stored : List String)
    → Perm (ids_of m.items) stored
    → Perm new_items m.items
    → IsSame (ordered answer (persist_order has_token new_items m) stored)
unfolding persist_order order_answered
persist_order-IsSame false answer new_items m stored h k = h
persist_order-IsSame true none new_items m stored h k = Perm.refl _
persist_order-IsSame true (some message) new_items m stored h k =
    Perm.trans (Perm.map (λ i. i.id) k) h

move_down-IsSame :
    (has_token : Bool) (answer : Option String) (i : ℕ) (m : Manager) (stored : List String)
    → Perm (ids_of m.items) stored
    → IsSame (ordered answer (move_down has_token i m) stored)
unfolding move_down
move_down-IsSame has_token answer i m stored h = elim (Bool-cases (i + 1 == length m.items)) [
  | inl e ↦ rw e h
  | inr e ↦ rw e (
      persist_order-IsSame has_token answer (swap_at i m.items) m stored h (swap_at-perm i m.items))
]

remove-IsSame :
    (has_token : Bool) (answer : Option String) (id : String) (confirmed : Bool) (m : Manager)
    (stored : List String)
    → Perm (ids_of m.items) stored
    → IsSame (removed answer (handle_remove has_token confirmed id m) stored)
unfolding handle_remove remove_answered
remove-IsSame false answer id confirmed m stored h = h
remove-IsSame true answer id false m stored h = h
remove-IsSame true (some message) id true m stored h = h
remove-IsSame true none id true m stored h =
    rw (sym (keep-map (λ k. not (str_eq k id)) (λ i. i.id) m.items))
      (keep-perm (λ k. not (str_eq k id)) h)

step-IsSame : (has_token : Bool) (d : Deed) (p : Page) → IsSame p → IsSame (step has_token d p)
unfolding step move_up
step-IsSame has_token (up zero answer) p h = h
step-IsSame has_token (up (suc i) answer) p h =
    persist_order-IsSame has_token answer (swap_at i p.manager.items) p.manager p.stored h
      (swap_at-perm i p.manager.items)
step-IsSame has_token (down i answer) p h = move_down-IsSame has_token answer i p.manager p.stored h
step-IsSame has_token (remove id confirmed answer) p h =
    remove-IsSame has_token answer id confirmed p.manager p.stored h

-- From a page that shows the server's items, in some order: whatever the owner moves and removes, one
-- answer before the next request, and whichever requests the server refuses, the page shows exactly
-- the items that the server holds, each as often, in some order.
pub run-IsSame :
    (has_token : Bool) (ds : List Deed) (p : Page)
    → Perm (ids_of p.manager.items) p.stored
    → Perm (ids_of (run has_token ds p).manager.items) (run has_token ds p).stored
unfolding run
run-IsSame has_token [] p h = h
run-IsSame has_token (d ∷ ds) p h =
    run-IsSame has_token ds (step has_token d p) (step-IsSame has_token d p h)
