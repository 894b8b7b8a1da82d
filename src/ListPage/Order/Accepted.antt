-- ===== src/ListPage/Order/Accepted.antt =====
-- Reordering and removing on frontend/components/ListItemsManager.tsx where the server accepts.
use rank_verse.Base.{sym}
use rank_verse.Base.{
  ℕ, zero, suc, ◌+◌, Bool, true, false, not, String, none, List, [], ◌∷◌, str_eq, length, ◌==◌, ◌≡◌,
  refl, Bool-cases, inl, inr, All,
}
use rank_verse.Base.Keep.{keep-map}
use rank_verse.ListPage.Order.{
  Item, Manager, swap_at, persist_order, move_up, move_down, order_answered, handle_remove,
  remove_answered,
}
use rank_verse.ListPage.Order.Stored.{
  Page, Deed, up, down, remove, step, run, ids_of, ordered, removed,
}

abbrev pub IsAccepted : Deed → Type 0
IsAccepted (up i answer) = answer ≡ none
IsAccepted (down i answer) = answer ≡ none
IsAccepted (remove id confirmed answer) = answer ≡ none

-- Item by item, in the server's order.
abbrev IsEqual : Page → Type 0
IsEqual p = ids_of p.manager.items ≡ p.stored

persist_order-IsEqual :
    (has_token : Bool) (new_items : List Item) (m : Manager) (stored : List String)
    → ids_of m.items ≡ stored
    → IsEqual (ordered none (persist_order has_token new_items m) stored)
unfolding persist_order order_answered
persist_order-IsEqual false new_items m stored h = h
persist_order-IsEqual true new_items m stored h = refl

move_down-IsEqual :
    (has_token : Bool) (i : ℕ) (m : Manager) (stored : List String)
    → ids_of m.items ≡ stored
    → IsEqual (ordered none (move_down has_token i m) stored)
unfolding move_down
move_down-IsEqual has_token i m stored h = elim (Bool-cases (i + 1 == length m.items)) [
  | inl e ↦ rw e h
  | inr e ↦ rw e (persist_order-IsEqual has_token (swap_at i m.items) m stored h)
]

remove-IsEqual :
    (has_token : Bool) (id : String) (confirmed : Bool) (m : Manager) (stored : List String)
    → ids_of m.items ≡ stored
    → IsEqual (removed none (handle_remove has_token confirmed id m) stored)
unfolding handle_remove remove_answered
remove-IsEqual false id confirmed m stored h = h
remove-IsEqual true id false m stored h = h
remove-IsEqual true id true m stored h =
    rw (sym h) (sym (keep-map (λ k. not (str_eq k id)) (λ i. i.id) m.items))

step-IsEqual :
    (has_token : Bool) (d : Deed) (p : Page)
    → IsAccepted d
    → IsEqual p
    → IsEqual (step has_token d p)
unfolding step move_up
step-IsEqual has_token (up zero answer) p a h = h
step-IsEqual has_token (up (suc i) answer) p a h =
    rw a (persist_order-IsEqual has_token (swap_at i p.manager.items) p.manager p.stored h)
step-IsEqual has_token (down i answer) p a h =
    rw a (move_down-IsEqual has_token i p.manager p.stored h)
step-IsEqual has_token (remove id confirmed answer) p a h =
    rw a (remove-IsEqual has_token id confirmed p.manager p.stored h)

-- Where the server accepts every request of a sequence of moves and removals, the page shows the
-- server's items in the server's order after it, if it did before it.
pub run-IsEqual :
    (has_token : Bool) (ds : List Deed) (p : Page)
    → ids_of p.manager.items ≡ p.stored
    → All IsAccepted ds
    → ids_of (run has_token ds p).manager.items ≡ (run has_token ds p).stored
unfolding run
run-IsEqual has_token [] p h a = h
run-IsEqual has_token (d ∷ ds) p h a =
    run-IsEqual has_token ds (step has_token d p) (step-IsEqual has_token d p a.0 h) a.1
