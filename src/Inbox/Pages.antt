-- ===== src/Inbox/Pages.antt =====
-- What frontend/app/notifications/NotificationsView.tsx has read once the viewer has scrolled far enough.
use mathlib.Core.List.{append-nil, append_assoc}
use rank_verse.Base.{
  ℕ, suc, ◌≤◌, Bool, true, false, String, Option, none, some, List, [], ◌∷◌, ◌++◌, str_eq,
  if◌then◌else◌, ◌≡◌, refl, ap, sym, ◌∙◌, All, length, arith,
}
use rank_verse.Base.Text.{str_eq-false}
use rank_verse.Base.Keep.{keep-all}
use rank_verse.Bell.{AppNotification}
use rank_verse.Bell.Unread.{AreApart, IsOther}
use rank_verse.Inbox.{Inbox, empty, NotificationPage, load_more, page_answered, is_new}

abbrev joined : List (List AppNotification) → List AppNotification
joined [] = []
joined (page ∷ pages) = page ++ joined pages

-- A server that holds these pages from the cursor on, and says that the last one is the last.
abbrev pub Serves :
    (Option String → NotificationPage) → Option String → List (List AppNotification) → Type 0
Serves fetch cursor [] = ⊥
Serves fetch cursor (page ∷ []) = fetch cursor ≡ record { items = page; next_cursor = none }
Serves fetch cursor (page ∷ next ∷ pages) =
    (c : String) × (fetch cursor ≡ record { items = page; next_cursor = some c })
    × (str_eq c "" ≡ false)
    × Serves fetch (some c) (next ∷ pages)

abbrev reply : (Option String → NotificationPage) → Option String → Bool → Option NotificationPage
reply fetch cursor true = some (fetch cursor)
reply fetch cursor false = none

-- One time that the sentinel comes near, and whether the request it makes succeeds.
unfoldable pub scroll_once : (Option String → NotificationPage) → Bool → Inbox → Inbox
unfolding load_more page_answered
scroll_once fetch succeeds b =
    let r = load_more true b in
    if r.1 then page_answered (reply fetch b.cursor succeeds) r.0 else r.0

unfoldable pub scroll : (Option String → NotificationPage) → List Bool → Inbox → Inbox
unfolding scroll_once
scroll fetch [] b = b
scroll fetch (ok ∷ oks) b = scroll fetch oks (scroll_once fetch ok b)

abbrev pub successes : List Bool → ℕ
successes [] = 0
successes (true ∷ oks) = suc (successes oks)
successes (false ∷ oks) = successes oks

IsOther-middle :
    (id : String) (cur page rest : List AppNotification)
    → IsOther id (cur ++ (page ++ rest))
    → IsOther id page
IsOther-middle id [] [] rest h = tt
IsOther-middle id [] (n ∷ page) rest h = (h.0, IsOther-middle id [] page rest h.1)
IsOther-middle id (c ∷ cur) page rest h = IsOther-middle id cur page rest h.1

abbrev AreNew : List AppNotification → List AppNotification → Type 0
AreNew cur page = All (λ n. is_new cur n ≡ true) page

new-nil : (page : List AppNotification) → AreNew [] page
new-nil [] = tt
new-nil (n ∷ page) = (refl, new-nil page)

new-cons :
    (c : AppNotification) (cur page : List AppNotification)
    → IsOther c.id page
    → AreNew cur page
    → AreNew (c ∷ cur) page
new-cons c cur [] h k = tt
new-cons c cur (n ∷ page) h k = (rw (str_eq-false n.id c.id h.0) k.0, new-cons c cur page h.1 k.1)

page-AreNew :
    (cur page rest : List AppNotification) → AreApart (cur ++ (page ++ rest)) → AreNew cur page
page-AreNew [] page rest h = new-nil page
page-AreNew (c ∷ cur) page rest h =
    new-cons c cur page (IsOther-middle c.id cur page rest h.0) (page-AreNew cur page rest h.1)

-- What a page that is read to the end shows.
pub record HasRead (items : List AppNotification) (b : Inbox) : Type 0 where
  pub is_read : b.items ≡ items
  pub has_ended : b.is_done ≡ true

module _ (fetch : Option String → NotificationPage) where
  done-once : (ok : Bool) (b : Inbox) → b.is_done ≡ true → scroll_once fetch ok b ≡ b
  unfolding scroll_once load_more
  done-once ok b e = ground arith

  done-stays : (oks : List Bool) (b : Inbox) → b.is_done ≡ true → scroll fetch oks b ≡ b
  unfolding scroll scroll_once load_more
  done-stays [] b e = refl
  done-stays (ok ∷ oks) b e = ap (scroll fetch oks) (done-once ok b e) ∙ done-stays oks b e

  abbrev at_cursor : List AppNotification → Option String → Bool → Inbox
  at_cursor items cursor has_failed = record {
    items = items;
    cursor = cursor;
    is_done = false;
    has_failed = has_failed;
    is_busy = false;
  }

  rest-HasRead :
      (oks : List Bool) (pages : List (List AppNotification)) (cur : List AppNotification)
      (cursor : Option String) (has_failed : Bool)
      → Serves fetch cursor pages
      → AreApart (cur ++ joined pages)
      → length pages ≤ successes oks
      → HasRead (cur ++ joined pages) (scroll fetch oks (at_cursor cur cursor has_failed))
  unfolding scroll scroll_once load_more page_answered
  rest-HasRead oks [] cur cursor f s a n = absurd s
  rest-HasRead [] (page ∷ pages) cur cursor f s a n = absurd (omega arith)
  rest-HasRead (false ∷ oks) pages cur cursor f s a n = rest-HasRead oks pages cur cursor true s a n
  rest-HasRead (true ∷ oks) (page ∷ []) cur cursor f s a n =
      let new = keep-all (is_new cur) page (page-AreNew cur page [] a) in
      rw (s, new, append-nil)
        (rw (done-stays oks (record (at_cursor (cur ++ page) none false) { is_done = true }) refl)
          (record { is_read = refl; has_ended = refl }))
  rest-HasRead (true ∷ oks) (page ∷ next ∷ pages) cur cursor f (c, e, g, s) a n =
      let new = keep-all (is_new cur) page (page-AreNew cur page (joined (next ∷ pages)) a) in
      let same = append_assoc cur page (joined (next ∷ pages)) in
      rw (e, new, g, sym same)
        (rest-HasRead oks (next ∷ pages) (cur ++ page) (some c) false s (rw same a) (omega arith))

  -- However often requests fail in between: once as many have succeeded as the server has pages, the
  -- page shows all of the server's notifications, each once and in its order, and asks for no more.
  -- The server's notifications have different ids.
  pub scroll-HasRead :
      (oks : List Bool) (pages : List (List AppNotification))
      → Serves fetch none pages
      → AreApart (joined pages)
      → length pages ≤ successes oks
      → HasRead (joined pages) (scroll fetch oks empty)
  scroll-HasRead oks pages s a n = rest-HasRead oks pages [] none false s a n
