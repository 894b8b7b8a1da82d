-- ===== src/ListPage/Adding/Saves.antt =====
-- What is on the list after frontend/components/list-detail/AddItemNode.tsx has saved its ticks.
use rank_verse.Base.{◌∙◌}
use mathlib.Core.List.{append-nil, append_assoc}
use rank_verse.Base.{
  Bool, true, false, String, Option, none, some, List, [], ◌∷◌, ◌++◌, map, str_eq, eq_iff, length,
  Ordering, ◌≡◌, refl, ap, sym, All, arith, Bool-cases, inl, inr, ◌&&◌,
}
use rank_verse.Base.Text.{Text}
use rank_verse.Constellation.{ListItem, ListDetail}
use rank_verse.Constellation.Detail.{with_appended_item, without_item}
use rank_verse.Constellation.Detail.Rollback.{IsNew, find_index-append, remove_at-append}
use rank_verse.ListPage.Adding.{
  ListCandidate, prepend, temp_id, Saved, renamed, show_all, settle, save_all,
}

-- `prefix` is at the start of `s`.
abbrev pub begins : String → String → Bool
begins String.[] s = true
begins (String.◌∷◌ c p) String.[] = false
begins (String.◌∷◌ c p) (String.◌∷◌ d s) =
    str_eq (String.◌∷◌ c String.[]) (String.◌∷◌ d String.[]) && begins p s

abbrev after : String → String → String
after String.[] s = s
after (String.◌∷◌ c p) String.[] = String.[]
after (String.◌∷◌ c p) (String.◌∷◌ d s) = after p s

pub begins-prepend : (p s : String) → begins p (prepend p s) ≡ true
begins-prepend String.[] s = refl
begins-prepend (String.◌∷◌ c p) s =
    ground (arith, eq_iff (String.◌∷◌ c String.[]) (String.◌∷◌ c String.[]), begins-prepend p s)

after-prepend : (p s : String) → after p (prepend p s) ≡ s
after-prepend String.[] s = refl
after-prepend (String.◌∷◌ c p) s = after-prepend p s

-- An id that the server gave out: none of those that the component makes up.
abbrev pub IsServerId : String → Type 0
IsServerId id = begins "temp-" id ≡ false

abbrev pub IsTempId : String → Type 0
IsTempId id = begins "temp-" id ≡ true

server_id-new : (k id : String) → IsServerId k → IsTempId id → str_eq k id ≡ false
server_id-new k id h t = elim (Bool-cases (str_eq k id)) [
  | inl e ↦ let same = ap (begins "temp-") ((eq_iff k id).0 e) in cc
  | inr e ↦ e
]

pub temp_id-new : (a b : String) → str_eq a b ≡ false → str_eq (temp_id a) (temp_id b) ≡ false
temp_id-new a b h = elim (Bool-cases (str_eq (temp_id a) (temp_id b))) [
  | inl e ↦
      let same = ap (after "temp-") ((eq_iff (temp_id a) (temp_id b)).0 e) in
      let equal = (eq_iff a b).1 same in cc
  | inr e ↦ e
]

abbrev pub AreServed : List ListItem → Type 0
AreServed items = All (λ i. IsServerId i.id) items

abbrev pub AreTemps : List ListItem → Type 0
AreTemps items = All (λ i. IsTempId i.id) items

AreServed-IsNew :
    (id : String) (items : List ListItem) → AreServed items → IsTempId id → IsNew id items
AreServed-IsNew id [] h t = tt
AreServed-IsNew id (i ∷ items) h t = (server_id-new i.id id h.0 t, AreServed-IsNew id items h.1 t)

-- Each id once.
abbrev pub AreSingle : List ListItem → Type 0
AreSingle [] = Unit
AreSingle (t ∷ ts) = IsNew t.id ts × AreSingle ts

rename-others :
    (id : String) (saved : Saved) (items : List ListItem)
    → IsNew id items
    → map (renamed id saved) items ≡ items
rename-others id saved [] h = refl
rename-others id saved (i ∷ items) h = rw h.0 (ap (λ r. i ∷ r) (rename-others id saved items h.1))

rename-append :
    (done ts : List ListItem) (t : ListItem) (saved : Saved)
    → IsNew t.id done
    → IsNew t.id ts
    → map (renamed t.id saved) (done ++ t ∷ ts)
      ≡ done ++ record t { id = saved.id; position = saved.position } ∷ ts
rename-append [] ts t saved h k = rw ((eq_iff t.id t.id).1 refl) (
    ap (λ r. record t { id = saved.id; position = saved.position } ∷ r)
      (rename-others t.id saved ts k))
rename-append (x ∷ done) ts t saved h k =
    rw h.0 (ap (λ r. x ∷ r) (rename-append done ts t saved h.1 k))

module _ (locale_compare : Text → Text → Ordering) where
  without_item-items :
      (detail : ListDetail) (done ts : List ListItem) (t : ListItem)
      → detail.items ≡ done ++ t ∷ ts
      → IsNew t.id done
      → (without_item locale_compare detail t.id).items ≡ done ++ ts
  unfolding without_item
  without_item-items detail done ts t e h =
      let found = find_index-append done ts t h in
      let gone = remove_at-append done ts t in rw (e, found, without_item, e) gone

  pub show_all-items :
      (ts : List ListItem) (detail : ListDetail)
      → (show_all locale_compare ts detail).items ≡ detail.items ++ ts
  unfolding show_all with_appended_item
  show_all-items [] detail = sym (append-nil detail.items)
  show_all-items (t ∷ ts) detail =
      show_all-items ts (with_appended_item locale_compare detail t)
      ∙ append_assoc detail.items (t ∷ []) ts

-- What becomes of a temp: the item under the id and position that the server gave, or nothing.
abbrev pub saved_item : ListItem → Option Saved → List ListItem
saved_item t none = []
saved_item t (some saved) = record t { id = saved.id; position = saved.position } ∷ []

abbrev pub saved_items :
    (ListCandidate → Option Saved) → List ListCandidate → List ListItem → List ListItem
saved_items answers (c ∷ cs) (t ∷ ts) = saved_item t (answers c) ++ saved_items answers cs ts
saved_items answers [] ts = []
saved_items answers (c ∷ cs) [] = []

AreServed-append :
    (done : List ListItem) (t : ListItem) (answer : Option Saved)
    → AreServed done
    → ((s : Saved) → answer ≡ some s → IsServerId s.id)
    → AreServed (done ++ saved_item t answer)
AreServed-append [] t none h k = tt
AreServed-append [] t (some s) h k = (k s refl, tt)
AreServed-append (i ∷ done) t answer h k = (h.0, AreServed-append done t answer h.1 k)

module _ (locale_compare : Text → Text → Ordering) where
  settle-items :
      (detail : ListDetail) (done ts : List ListItem) (t : ListItem) (answer : Option Saved)
      → detail.items ≡ done ++ t ∷ ts
      → IsNew t.id done
      → IsNew t.id ts
      → (settle locale_compare t answer detail).items ≡ (done ++ saved_item t answer) ++ ts
  settle-items detail done ts t none e h k =
      rw append-nil (without_item-items locale_compare detail done ts t e h)
  settle-items detail done ts t (some s) e h k =
      rw (e, append_assoc) (rename-append done ts t s h k)

  module _ (answers : ListCandidate → Option Saved)
      (served : (c : ListCandidate) (s : Saved) → answers c ≡ some s → IsServerId s.id) where
    pub save_all-items :
        (cs : List ListCandidate) (ts : List ListItem) (detail : ListDetail) (done : List ListItem)
        → length ts ≡ length cs
        → detail.items ≡ done ++ ts
        → AreServed done
        → AreTemps ts
        → AreSingle ts
        → (save_all locale_compare answers cs ts detail).items ≡ done ++ saved_items answers cs ts
    unfolding save_all
    save_all-items (c ∷ cs) (t ∷ ts) detail done n e h k a =
        let new = AreServed-IsNew t.id done h k.0 in
        save_all-items cs ts (settle locale_compare t (answers c) detail)
          (done ++ saved_item t (answers c)) (omega arith)
          (settle-items detail done ts t (answers c) e new a.0)
          (AreServed-append done t (answers c) h (served c)) k.1 a.1
        ∙ append_assoc done (saved_item t (answers c)) (saved_items answers cs ts)
    save_all-items [] [] detail done n e h k a = e
    save_all-items [] (t ∷ ts) detail done n e h k a = absurd (omega arith)
    save_all-items (c ∷ cs) [] detail done n e h k a = absurd (omega arith)
