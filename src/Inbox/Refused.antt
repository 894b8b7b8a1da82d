-- ===== src/Inbox/Refused.antt =====
-- What frontend/app/notifications/NotificationsView.tsx shows after a request that was refused.
use rank_verse.Base.{
  Bool, true, false, String, Option, none, some, List, [], ◌∷◌, map, str_eq, ◌≡◌, refl, ap, sym,
  ◌∙◌, Bool-cases, inl, inr,
}
use rank_verse.Bell.{AppNotification}
use rank_verse.Bell.Unread.{
  find_one, find_one-here, find_one-later, IsOther-same, AreApart, IsOther,
}
use rank_verse.Inbox.{
  handle_open, open_answered, handle_delete, handle_read_all, put_back, put_read,
}

-- The three handlers of a notification on the page.
pub data Deed : Type 0 where
  opening deleting reading_all : Deed

abbrev asked : Deed → AppNotification → List AppNotification → Option (List AppNotification)
asked opening n cur = handle_open true n cur
asked deleting n cur = handle_delete true n cur
asked reading_all n cur = handle_read_all true cur

abbrev answered :
    Deed
    → Bool
    → AppNotification
    → List AppNotification
    → List AppNotification
    → List AppNotification
answered opening succeeds n before cur = open_answered succeeds n cur
answered deleting succeeds n before cur = put_back succeeds before cur
answered reading_all succeeds n before cur = put_back succeeds before cur

abbrev settled :
    Deed
    → Bool
    → AppNotification
    → List AppNotification
    → Option (List AppNotification)
    → List AppNotification
settled d succeeds n before none = before
settled d succeeds n before (some cur) = answered d succeeds n before cur

-- A deed, and its answer before any other.
abbrev pub act : Deed → Bool → AppNotification → List AppNotification → List AppNotification
act d succeeds n cur = settled d succeeds n cur (asked d n cur)

put_read-others :
    (id : String) (is_read : Bool) (items : List AppNotification)
    → IsOther id items
    → map (put_read id is_read) items ≡ items
put_read-others id is_read [] h = refl
put_read-others id is_read (i ∷ items) h =
    rw h.0 (ap (λ r. i ∷ r) (put_read-others id is_read items h.1))

put_read-back :
    (id : String) (n : AppNotification) (items : List AppNotification)
    → find_one id items ≡ some n
    → n.is_read ≡ false
    → AreApart items
    → map (put_read id false) (map (put_read id true) items) ≡ items
put_read-back id n [] e h a = cc
put_read-back id n (i ∷ items) e h a = elim (Bool-cases (str_eq i.id id)) [
  | inl f ↦
      let unread = ap (λ k. k.is_read) (find_one-here id i n items e f) ∙ h in
      let others = IsOther-same i id items a.0 f in
      rw (f, f, put_read-others id true items others, put_read-others id false items others)
        (λ k. record i { is_read = sym unread k } ∷ items)
  | inr f ↦
      rw (f, f) (ap (λ r. i ∷ r) (put_read-back id n items (find_one-later id i n items e f) h a.1))
]

-- A notification of the page that is opened or deleted, or all read, where the server refuses: the page
-- shows what it showed before. The page's notifications have different ids.
pub act-refused :
    (d : Deed) (n : AppNotification) (cur : List AppNotification)
    → find_one n.id cur ≡ some n
    → AreApart cur
    → act d false n cur ≡ cur
unfolding handle_open open_answered handle_delete handle_read_all put_back
act-refused opening n cur e a = elim (Bool-cases n.is_read) [
  | inl r ↦ rw r refl
  | inr r ↦ rw r (put_read-back n.id n cur e r a)
]
act-refused deleting n cur e a = refl
act-refused reading_all n cur e a = refl
