-- ===== src/Tournament/Wizard/Ready.antt =====
-- What frontend/components/tournament/BattleWizard.tsx publishes.
use rank_verse.Base.{
  ℕ, ◌||◌, ◌&&◌, Bool, true, false, not, String, Option, none, some, List, [], ◌∷◌, ◌++◌, map,
  str_eq, ltb, leb, ◌==◌, length, if◌then◌else◌, ◌≡◌, refl, ap, ◌∙◌, All, arith, Bool-cases, inl,
  inr, length-map,
}
use rank_verse.Base.Text.{str_eq-false}
use rank_verse.Base.Apart.{IsOther, AreApart, keep-AreApart, take-AreApart, append-AreApart}
use rank_verse.Tournament.Wizard.{
  EntityType, Entity, Wizard, fresh, Draft, resumed, run_failed, info_saved, add, add_each,
  add_many, remove, back, publish, has_entry, is_of,
}

-- What happens in the wizard; a saving stands for its request and the answer to it.
pub data Deed : Type 0 where
  resume : Draft → Deed
  choose_type : EntityType → Deed
  choose_size : ℕ → Deed
  save : String → Deed
  fail : String → Deed
  add_one : Entity → Deed
  add_all : List Entity → Deed
  remove_one : String → Deed
  go_back : Deed

-- The first step has the information, the second the entries.
unfoldable pub act : Deed → Wizard → Wizard
unfolding resumed run_failed info_saved add add_many remove back
act (resume d) w = (resumed (inl d) w).0
act (choose_type t) w = if w.step == 0 then record w { entity_type = t } else w
act (choose_size n) w = if w.step == 0 then record w { size = n } else w
act (save created) w = if w.step == 0 then info_saved created w.entity_type w.size w else w
act (fail message) w = run_failed message w
act (add_one e) w = if w.step == 0 then w else add e w
act (add_all list) w = if w.step == 0 then w else add_many list w
act (remove_one id) w = if w.step == 0 then w else remove id w
act go_back w = back w

unfoldable pub run : List Deed → Wizard → Wizard
unfolding act
run [] w = w
run (d ∷ ds) w = run ds (act d w)

abbrev pub entry_id : Entity → String
entry_id e = e.id

-- What the server hands over names no entry twice.
abbrev pub IsOrderly : Deed → Type 0
IsOrderly (resume d) = AreApart entry_id d.participants
IsOrderly (add_all list) = AreApart entry_id list
IsOrderly _ = Unit

-- An entry that is not among `ids` is not among `next`.
abbrev AreNew : List Entity → List Entity → List Entity → Type 0
AreNew ids next list = All (λ e. has_entry e.id ids ≡ false → has_entry e.id next ≡ false) list

has_entry-append :
    (id : String) (next : List Entity) (e : Entity)
    → has_entry id next ≡ false
    → str_eq e.id id ≡ false
    → has_entry id (next ++ e ∷ []) ≡ false
has_entry-append id [] e h k = rw k refl
has_entry-append id (x ∷ next) e h k = elim (Bool-cases (str_eq x.id id)) [
  | inl f ↦ absurd (ground arith)
  | inr f ↦ rw f (has_entry-append id next e (ground arith) k)
]

AreNew-append :
    (ids next list : List Entity) (e : Entity)
    → AreNew ids next list
    → IsOther entry_id e.id list
    → AreNew ids (next ++ e ∷ []) list
AreNew-append ids next [] e h k = tt
AreNew-append ids next (x ∷ list) e h k = (
  λ n. has_entry-append x.id next e (h.0 n) (str_eq-false x.id e.id k.0),
  AreNew-append ids next list e h.1 k.1,
)

add_each-AreApart :
    (size : ℕ) (ids next list : List Entity)
    → AreApart entry_id next
    → AreApart entry_id list
    → AreNew ids next list
    → AreApart entry_id (add_each size ids next list)
unfolding add_each
add_each-AreApart size ids next [] a b h = a
add_each-AreApart size ids next (e ∷ list) a b h =
    elim (Bool-cases (ltb (length next) size && not (has_entry e.id ids))) [
      | inl f ↦
          let new : has_entry e.id ids ≡ false = ground arith in
          rw f (
            add_each-AreApart size ids (next ++ e ∷ []) list
              (append-AreApart entry_id next e (h.0 new) a) b.1
              (AreNew-append ids next list e h.1 b.0))
      | inr f ↦ rw f (add_each-AreApart size ids next list a b.1 h.1)
    ]

AreNew-same : (ids list : List Entity) → AreNew ids ids list
AreNew-same ids [] = tt
AreNew-same ids (e ∷ list) = (λ n. n, AreNew-same ids list)

either-AreApart :
    (b : Bool) (v w : Wizard)
    → (b ≡ true → AreApart entry_id v.entries)
    → (b ≡ false → AreApart entry_id w.entries)
    → AreApart entry_id (if b then v else w).entries
either-AreApart true v w f g = f refl
either-AreApart false v w f g = g refl

resumed-AreApart :
    (d : Draft) (w : Wizard)
    → AreApart entry_id d.participants
    → AreApart entry_id w.entries
    → AreApart entry_id (resumed (inl d) w).0.entries
unfolding resumed
resumed-AreApart d w o a = elim (Bool-cases (d.is_draft && d.is_owner)) [
  | inl e ↦ rw (e, resumed) o
  | inr e ↦ rw (e, resumed) a
]

act-AreApart :
    (d : Deed) (w : Wizard)
    → IsOrderly d
    → AreApart entry_id w.entries
    → AreApart entry_id (act d w).entries
unfolding act resumed run_failed info_saved add add_many remove back
act-AreApart (resume d) w o a = resumed-AreApart d w o a
act-AreApart (choose_type t) w o a = either-AreApart (w.step == 0) _ _ (λ e. a) (λ e. a)
act-AreApart (choose_size n) w o a = either-AreApart (w.step == 0) _ _ (λ e. a) (λ e. a)
act-AreApart (save created) w o a =
    either-AreApart (w.step == 0) _ _
      (λ e.
        take-AreApart entry_id w.size _ (keep-AreApart entry_id (is_of w.entity_type) w.entries a))
      (λ e. a)
act-AreApart (fail message) w o a = a
act-AreApart (add_one e) w o a =
    either-AreApart (w.step == 0) _ _ (λ f. a)
      (λ f.
        either-AreApart (leb w.size (length w.entries) || has_entry e.id w.entries) _ _ (λ g. a)
          (λ g. append-AreApart entry_id w.entries e (ground arith) a))
act-AreApart (add_all list) w o a =
    either-AreApart (w.step == 0) _ _ (λ f. a)
      (λ f. add_each-AreApart w.size w.entries w.entries list a o (AreNew-same w.entries list))
act-AreApart (remove_one id) w o a =
    either-AreApart (w.step == 0) _ _ (λ f. a)
      (λ f. keep-AreApart entry_id (λ x. not (str_eq x.id id)) w.entries a)
act-AreApart go_back w o a = a

run-AreApart :
    (ds : List Deed) (w : Wizard)
    → All IsOrderly ds
    → AreApart entry_id w.entries
    → AreApart entry_id (run ds w).entries
unfolding run
run-AreApart [] w o a = a
run-AreApart (d ∷ ds) w o a = run-AreApart ds (act d w) o.1 (act-AreApart d w o.0 a)

-- A text for each place, and none of them twice.
pub record IsLineup (size : ℕ) (ids : List String) : Type 0 where
  pub full : length ids ≡ size
  pub apart : AreApart (λ id. id) ids

IsOther-ids :
    (id : String) (es : List Entity)
    → IsOther entry_id id es
    → IsOther (λ k. k) id (map entry_id es)
IsOther-ids id [] h = tt
IsOther-ids id (e ∷ es) h = (h.0, IsOther-ids id es h.1)

AreApart-ids : (es : List Entity) → AreApart entry_id es → AreApart (λ k. k) (map entry_id es)
AreApart-ids [] h = tt
AreApart-ids (e ∷ es) h = (IsOther-ids e.id es h.0, AreApart-ids es h.1)

publish-IsLineup :
    (w : Wizard) (ids : List String)
    → AreApart entry_id w.entries
    → publish w ≡ some ids
    → IsLineup w.size ids
unfolding publish
publish-IsLineup w ids a e =
    let sent = map entry_id w.entries in
    elim (Bool-cases (w.busy || not (length w.entries == w.size))) [
      | inl f ↦
          let got : none ≡ some ids = rw⁻¹ (ap (λ b. if b then none else some sent) f) e in
          absurd cc
      | inr f ↦
          let got : some sent ≡ some ids = rw⁻¹ (ap (λ b. if b then none else some sent) f) e in
          let same : sent ≡ ids = cc in
          let full : length w.entries ≡ w.size = ground arith in
          rw⁻¹ same (record {
            full = length-map entry_id w.entries ∙ full;
            apart = AreApart-ids w.entries a;
          })
    ]

-- Whatever a user does in the wizard, in whatever order: the ids that are published are as many as the
-- chosen size, and none stands there twice. The lists that the server hands over name no entry twice.
pub run-IsLineup :
    (ds : List Deed) (resume_slug : Option String) (ids : List String)
    → All IsOrderly ds
    → publish (run ds (fresh resume_slug)) ≡ some ids
    → IsLineup (run ds (fresh resume_slug)).size ids
run-IsLineup ds resume_slug ids o e =
    publish-IsLineup (run ds (fresh resume_slug)) ids (run-AreApart ds (fresh resume_slug) o tt) e
