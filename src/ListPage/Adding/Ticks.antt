-- ===== src/ListPage/Adding/Ticks.antt =====
-- The ticks of frontend/components/list-detail/AddItemNode.tsx, and what adding them leaves on the list.
use rank_verse.Base.{true}
use mathlib.Core.List.{append-nil}
use rank_verse.Base.{
  suc, not, String, Option, none, some, List, [], ◌∷◌, ◌++◌, length, Ordering, ◌≡◌, refl, ap, sym,
  Bool-cases, inl, inr,
}
use rank_verse.Base.Apart.{IsOther, AreApart, keep-AreApart, append-AreApart}
use rank_verse.Base.Keep.{some_of}
use rank_verse.Base.Text.{Text}
use rank_verse.Constellation.{ListItem, ListDetail}
use rank_verse.Constellation.Detail.Rollback.{IsNew}
use rank_verse.ListPage.Adding.{
  ListCandidate, temp_id, optimistic_item, temps, Saved, show_all, add_selected, toggle,
  is_candidate,
}
use rank_verse.ListPage.Adding.Saves.{
  AreTemps, AreSingle, AreServed, IsServerId, saved_items, save_all-items, show_all-items,
  temp_id-new, begins-prepend,
}

-- The ticks after these taps, the last one first.
abbrev pub ticked : List ListCandidate → List ListCandidate
ticked [] = []
ticked (c ∷ cs) = toggle c (ticked cs)

abbrev entity_id : ListCandidate → String
entity_id c = c.entity.id

toggle-AreApart :
    (c : ListCandidate) (cs : List ListCandidate)
    → AreApart entity_id cs
    → AreApart entity_id (toggle c cs)
unfolding toggle
toggle-AreApart c cs h = elim (Bool-cases (some_of (is_candidate c.entity.id) cs)) [
  | inl e ↦ rw e (keep-AreApart entity_id (λ d. not (is_candidate c.entity.id d)) cs h)
  | inr e ↦ rw e (append-AreApart entity_id cs c e h)
]

ticked-AreApart : (cs : List ListCandidate) → AreApart entity_id (ticked cs)
ticked-AreApart [] = tt
ticked-AreApart (c ∷ cs) = toggle-AreApart c (ticked cs) (ticked-AreApart cs)

temps-AreTemps :
    (now : String) (cs : List ListCandidate) (base : List ListItem) → AreTemps (temps now cs base)
unfolding temps optimistic_item
temps-AreTemps now [] base = tt
temps-AreTemps now (c ∷ cs) base = (
  begins-prepend "temp-" c.entity.id,
  temps-AreTemps now cs (base ++ optimistic_item now c base ∷ []),
)

temps-IsNew :
    (now id : String) (cs : List ListCandidate) (base : List ListItem)
    → IsOther entity_id id cs
    → IsNew (temp_id id) (temps now cs base)
unfolding temps optimistic_item
temps-IsNew now id [] base h = tt
temps-IsNew now id (c ∷ cs) base h = (
  temp_id-new c.entity.id id h.0,
  temps-IsNew now id cs (base ++ optimistic_item now c base ∷ []) h.1,
)

temps-AreSingle :
    (now : String) (cs : List ListCandidate) (base : List ListItem)
    → AreApart entity_id cs
    → AreSingle (temps now cs base)
unfolding temps optimistic_item
temps-AreSingle now [] base h = tt
temps-AreSingle now (c ∷ cs) base h =
    let next = base ++ optimistic_item now c base ∷ [] in
    (temps-IsNew now c.entity.id cs next h.0, temps-AreSingle now cs next h.1)

length-temps :
    (now : String) (cs : List ListCandidate) (base : List ListItem)
    → length (temps now cs base) ≡ length cs
unfolding temps
length-temps now [] base = refl
length-temps now (c ∷ cs) base =
    ap suc (length-temps now cs (base ++ optimistic_item now c base ∷ []))

chosen-items :
    (locale_compare : Text → Text → Ordering) (answers : ListCandidate → Option Saved)
    (now : String) (cs : List ListCandidate) (detail : ListDetail)
    → ((c : ListCandidate) (s : Saved) → answers c ≡ some s → IsServerId s.id)
    → AreServed detail.items
    → AreApart entity_id cs
    → (add_selected locale_compare answers true now
        (record { selected = cs; error = none })
        detail).1.items
      ≡ detail.items ++ saved_items answers cs (temps now cs detail.items)
unfolding add_selected
chosen-items locale_compare answers now [] detail served h a = sym (append-nil detail.items)
chosen-items locale_compare answers now (c ∷ r) detail served h a =
    let cs = c ∷ r in
    let new = temps now cs detail.items in
    save_all-items locale_compare answers served cs new (show_all locale_compare new detail)
      detail.items (length-temps now cs detail.items) (show_all-items locale_compare new detail) h
      (temps-AreTemps now cs detail.items) (temps-AreSingle now cs detail.items a)

-- Whatever candidates are tapped, and whichever saves fail: after the ticked ones are added, the list
-- has its old items, and behind them each ticked candidate whose save succeeded, in tick order, under
-- the id and the position that the server gave it. The server's ids do not begin like temporary ones.
pub add_selected-items :
    (locale_compare : Text → Text → Ordering) (answers : ListCandidate → Option Saved)
    (now : String) (taps : List ListCandidate) (detail : ListDetail)
    → ((c : ListCandidate) (s : Saved) → answers c ≡ some s → IsServerId s.id)
    → AreServed detail.items
    → (add_selected locale_compare answers true now
        (record { selected = ticked taps; error = none })
        detail).1.items
      ≡ detail.items ++ saved_items answers (ticked taps) (temps now (ticked taps) detail.items)
add_selected-items locale_compare answers now taps detail served h =
    chosen-items locale_compare answers now (ticked taps) detail served h (ticked-AreApart taps)
