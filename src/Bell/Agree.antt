-- ===== src/Bell/Agree.antt =====
-- The bell of frontend/components/NotificationBell.tsx and the server, one deed after the other.
use rank_verse.Base.{
  ◌==◌, Bool, true, false, not, String, Option, none, some, List, [], ◌∷◌, map, str_eq, ◌≡◌, refl,
  ap, sym, arith, Bool-cases, Option-cases, inl, inr,
}
use rank_verse.Base.Apart.{keep-AreApart}
use rank_verse.Bell.{
  AppNotification, Bell, set_read, read_item, Ask, handle_open, open_answered, handle_delete,
  delete_answered, handle_read_all, read_all_answered,
}
use rank_verse.Bell.Unread.{
  unread, find_one, serve, IsOther, AreApart, unread-read_one, unread-delete_one, unread-read_all,
  find_one-id, unread_one,
}

-- The bell, and what the server holds.
pub record Page : Type 0 where
  pub bell : Bell
  pub held : List AppNotification

-- A tap on the shown notification of this id, and whether its request succeeds.
pub data Deed : Type 0 where
  open_one : String → Deed
  remove_one : String → Bool → Deed
  read_all : Bool → Deed

abbrev served : Bool → Option Ask → List AppNotification → List AppNotification
served succeeds none held = held
served true (some ask) held = serve ask held
served false (some ask) held = held

abbrev find_shown : String → Option (List AppNotification) → Option AppNotification
find_shown id none = none
find_shown id (some items) = find_one id items

abbrev open_shown : Option AppNotification → Page → Page
open_shown none p = p
open_shown (some n) p =
    let r = handle_open true n p.bell in
    record { bell = open_answered true r.0; held = served true r.1 p.held }

abbrev remove_shown : Option AppNotification → Bool → Page → Page
remove_shown none succeeds p = p
remove_shown (some n) succeeds p =
    let r = handle_delete true n p.bell in
    record { bell = delete_answered succeeds n p.bell.items r.0; held = served succeeds r.1 p.held }

abbrev answer_all : Bool → Bell → Bell × Option Ask → Bell
answer_all succeeds before (b, none) = b
answer_all succeeds before (b, some ask) = read_all_answered succeeds before.items before.count b

unfoldable pub step : Deed → Page → Page
unfolding handle_open open_answered handle_delete delete_answered handle_read_all read_all_answered
step (open_one id) p = open_shown (find_shown id p.bell.items) p
step (remove_one id succeeds) p = remove_shown (find_shown id p.bell.items) succeeds p
step (read_all succeeds) p =
    let r = handle_read_all true p.bell in
    record { bell = answer_all succeeds p.bell r; held = served succeeds r.1 p.held }

unfoldable pub run : List Deed → Page → Page
unfolding step
run [] p = p
run (d ∷ ds) p = run ds (step d p)

read_one-IsOther :
    (id k : String) (items : List AppNotification)
    → IsOther k items
    → IsOther k (map (set_read id) items)
read_one-IsOther id k [] h = tt
read_one-IsOther id k (i ∷ items) h = elim (Bool-cases (str_eq i.id id)) [
  | inl e ↦ rw e (h.0, read_one-IsOther id k items h.1)
  | inr e ↦ rw e (h.0, read_one-IsOther id k items h.1)
]

read_one-AreApart :
    (id : String) (items : List AppNotification)
    → AreApart items
    → AreApart (map (set_read id) items)
read_one-AreApart id [] h = tt
read_one-AreApart id (i ∷ items) h = elim (Bool-cases (str_eq i.id id)) [
  | inl e ↦ rw e (read_one-IsOther id i.id items h.0, read_one-AreApart id items h.1)
  | inr e ↦ rw e (read_one-IsOther id i.id items h.0, read_one-AreApart id items h.1)
]

read_all-IsOther :
    (k : String) (items : List AppNotification) → IsOther k items → IsOther k (map read_item items)
read_all-IsOther k [] h = tt
read_all-IsOther k (i ∷ items) h = (h.0, read_all-IsOther k items h.1)

read_all-AreApart : (items : List AppNotification) → AreApart items → AreApart (map read_item items)
read_all-AreApart [] h = tt
read_all-AreApart (i ∷ items) h = (read_all-IsOther i.id items h.0, read_all-AreApart items h.1)

-- The list shown is the server's, and the count that of its unread ones.
pub record InStep (p : Page) : Type 0 where
  pub shown : p.bell.items ≡ some p.held
  pub counted : p.bell.count ≡ unread p.held
  pub apart : AreApart p.held

abbrev page : List AppNotification → Bool → Bool → Page
page held is_open has_failed = record {
  bell = record {
    count = unread held;
    is_open = is_open;
    items = some held;
    has_failed = has_failed;
  };
  held = held;
}

InStep-page : (p : Page) → InStep p → p ≡ page p.held p.bell.is_open p.bell.has_failed
InStep-page p h = λ i. record {
  bell = record {
    count = h.counted i;
    is_open = p.bell.is_open;
    items = h.shown i;
    has_failed = p.bell.has_failed;
  };
  held = p.held;
}

module _ (held : List AppNotification) (o f : Bool) (a : AreApart held) where
  unchanged : InStep (page held o f)
  unchanged = record { shown = refl; counted = refl; apart = a }

  open_one-InStep : (id : String) → InStep (step (open_one id) (page held o f))
  unfolding step handle_open open_answered
  open_one-InStep id = elim (Option-cases (find_one id held)) [
    | inl e ↦ rw e unchanged
    | inr (n, e) ↦ elim (Bool-cases n.is_read) [
      | inl r ↦ rw (e, r) (record { shown = refl; counted = refl; apart = a })
      | inr r ↦
          let fewer = unread-read_one id held n e r a in
          rw (e, r, find_one-id id held n e)
            (record {
              shown = refl;
              counted = omega (arith, fewer);
              apart = read_one-AreApart id held a;
            })
    ]
  ]

  removed-InStep :
      (id : String) (n : AppNotification)
      → find_one id held ≡ some n
      → (succeeds : Bool) → InStep (remove_shown (some n) succeeds (page held o f))
  unfolding handle_delete delete_answered
  removed-InStep id n e true = elim (Bool-cases n.is_read) [
    | inl r ↦
        let fewer = unread-delete_one id held n e a in
        rw (r, find_one-id id held n e)
          (record {
            shown = refl;
            counted = omega (arith, fewer, ap unread_one r);
            apart = keep-AreApart (λ i. i.id) (λ i. not (str_eq i.id id)) held a;
          })
    | inr r ↦
        let fewer = unread-delete_one id held n e a in
        rw (r, find_one-id id held n e)
          (record {
            shown = refl;
            counted = omega (arith, fewer, ap unread_one r);
            apart = keep-AreApart (λ i. i.id) (λ i. not (str_eq i.id id)) held a;
          })
  ]
  removed-InStep id n e false = elim (Bool-cases n.is_read) [
    | inl r ↦ rw r unchanged
    | inr r ↦
        let fewer = unread-delete_one id held n e a in
        rw r (record { shown = refl; counted = omega (arith, fewer, ap unread_one r); apart = a })
  ]

  remove_one-InStep :
      (id : String) (succeeds : Bool) → InStep (step (remove_one id succeeds) (page held o f))
  unfolding step handle_delete delete_answered
  remove_one-InStep id succeeds = elim (Option-cases (find_one id held)) [
    | inl e ↦ rw e unchanged
    | inr (n, e) ↦ rw e (removed-InStep id n e succeeds)
  ]

  read_all-InStep : (succeeds : Bool) → InStep (step (read_all succeeds) (page held o f))
  unfolding step handle_read_all read_all_answered
  read_all-InStep true = elim (Bool-cases (unread held == 0)) [
    | inl e ↦ rw e unchanged
    | inr e ↦ rw e (record {
      shown = refl;
      counted = sym (unread-read_all held);
      apart = read_all-AreApart held a;
    })
  ]
  read_all-InStep false = elim (Bool-cases (unread held == 0)) [
    | inl e ↦ rw e unchanged
    | inr e ↦ rw e unchanged
  ]

step-InStep : (d : Deed) (p : Page) → InStep p → InStep (step d p)
step-InStep (open_one id) p h =
    rw (InStep-page p h) (open_one-InStep p.held p.bell.is_open p.bell.has_failed h.apart id)
step-InStep (remove_one id succeeds) p h =
    rw (InStep-page p h)
      (remove_one-InStep p.held p.bell.is_open p.bell.has_failed h.apart id succeeds)
step-InStep (read_all succeeds) p h =
    rw (InStep-page p h) (read_all-InStep p.held p.bell.is_open p.bell.has_failed h.apart succeeds)

-- From a bell that shows the server's list and count, of notifications with different ids: whatever
-- notifications are opened and deleted and however often all are read, one answer before the next
-- request, where deletions and readings of all may be refused but openings are not, the list that the
-- bell shows stays the server's, and its count that of the server's unread notifications.
pub run-InStep : (ds : List Deed) (p : Page) → InStep p → InStep (run ds p)
unfolding run
run-InStep [] p h = h
run-InStep (d ∷ ds) p h = run-InStep ds (step d p) (step-InStep d p h)
