-- ===== src/Bell/Unread.antt =====
-- The count of frontend/components/NotificationBell.tsx against the unread notifications that the
-- server holds.
use rank_verse.Base.{◌∙◌}
use rank_verse.Base.{
  ℕ, ◌+◌, Bool, true, false, not, String, Option, none, some, List, [], ◌∷◌, map, str_eq, eq_iff,
  if◌then◌else◌, ◌≡◌, refl, ap, sym, arith, Bool-cases, inl, inr,
}
use rank_verse.Base.Apart
use rank_verse.Base.Keep.{keep}
use rank_verse.Bell.{
  AppNotification, set_read, read_item, Ask, mark_read, delete_one, mark_all_read,
}

abbrev pub unread_one : Bool → ℕ
unread_one is_read = if is_read then 0 else 1

abbrev pub unread : List AppNotification → ℕ
unread [] = 0
unread (i ∷ items) = unread_one i.is_read + unread items

abbrev pub find_one : String → List AppNotification → Option AppNotification
find_one id [] = none
find_one id (i ∷ items) = let rest = find_one id items in if str_eq i.id id then some i else rest

-- What the server does on a request.
abbrev pub serve : Ask → List AppNotification → List AppNotification
serve (mark_read id) items = map (set_read id) items
serve (delete_one id) items = keep (λ i. not (str_eq i.id id)) items
serve mark_all_read items = map read_item items

abbrev pub IsOther : String → List AppNotification → Type 0
IsOther id items = Apart.IsOther (λ i. i.id) id items

-- Each id once.
abbrev pub AreApart : List AppNotification → Type 0
AreApart items = Apart.AreApart (λ i. i.id) items

read-others :
    (id : String) (items : List AppNotification)
    → IsOther id items
    → map (set_read id) items ≡ items
read-others id [] h = refl
read-others id (i ∷ items) h = rw h.0 (ap (λ r. i ∷ r) (read-others id items h.1))

keep-others :
    (id : String) (items : List AppNotification)
    → IsOther id items
    → keep (λ i. not (str_eq i.id id)) items ≡ items
keep-others id [] h = refl
keep-others id (i ∷ items) h = rw h.0 (ap (λ r. i ∷ r) (keep-others id items h.1))

pub find_one-here :
    (id : String) (i n : AppNotification) (items : List AppNotification)
    → find_one id (i ∷ items) ≡ some n
    → str_eq i.id id ≡ true
    → i ≡ n
find_one-here id i n items e f =
    let got : some i ≡ some n = rw⁻¹ (ap (λ b. if b then some i else find_one id items) f) e in cc

pub find_one-later :
    (id : String) (i n : AppNotification) (items : List AppNotification)
    → find_one id (i ∷ items) ≡ some n
    → str_eq i.id id ≡ false
    → find_one id items ≡ some n
find_one-later id i n items e f = rw⁻¹ (ap (λ b. if b then some i else find_one id items) f) e

pub IsOther-same :
    (i : AppNotification) (id : String) (items : List AppNotification)
    → IsOther i.id items
    → str_eq i.id id ≡ true
    → IsOther id items
IsOther-same i id items h f = let same = (eq_iff i.id id).0 f in rw⁻¹ same h

pub unread-read_one :
    (id : String) (items : List AppNotification) (n : AppNotification)
    → find_one id items ≡ some n
    → n.is_read ≡ false
    → AreApart items
    → unread (map (set_read id) items) + 1 ≡ unread items
unread-read_one id [] n e h a = cc
unread-read_one id (i ∷ items) n e h a = elim (Bool-cases (str_eq i.id id)) [
  | inl f ↦
      let here = ap (λ k. k.is_read) (find_one-here id i n items e f) ∙ h in
      let rest = read-others id items (IsOther-same i id items a.0 f) in
      rw (f, rest, here) (omega arith)
  | inr f ↦
      let later = unread-read_one id items n (find_one-later id i n items e f) h a.1 in
      rw f (omega (arith, later))
]

pub unread-delete_one :
    (id : String) (items : List AppNotification) (n : AppNotification)
    → find_one id items ≡ some n
    → AreApart items
    → unread (keep (λ i. not (str_eq i.id id)) items) + unread_one n.is_read ≡ unread items
unread-delete_one id [] n e a = cc
unread-delete_one id (i ∷ items) n e a = elim (Bool-cases (str_eq i.id id)) [
  | inl f ↦
      let here = ap (λ k. unread_one k.is_read) (find_one-here id i n items e f) in
      let rest = keep-others id items (IsOther-same i id items a.0 f) in
      rw (f, rest) (omega (arith, here))
  | inr f ↦
      let later = unread-delete_one id items n (find_one-later id i n items e f) a.1 in
      rw f (omega (arith, later))
]

pub unread-read_all : (items : List AppNotification) → unread (map read_item items) ≡ 0
unread-read_all [] = refl
unread-read_all (i ∷ items) = omega (arith, unread-read_all items)

pub find_one-id :
    (id : String) (items : List AppNotification) (n : AppNotification)
    → find_one id items ≡ some n
    → n.id ≡ id
find_one-id id [] n e = cc
find_one-id id (i ∷ items) n e = elim (Bool-cases (str_eq i.id id)) [
  | inl f ↦ ap (λ k. k.id) (sym (find_one-here id i n items e f)) ∙ (eq_iff i.id id).0 f
  | inr f ↦ find_one-id id items n (find_one-later id i n items e f)
]
