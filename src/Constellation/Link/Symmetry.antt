-- ===== src/Constellation/Link/Symmetry.antt =====
-- The link between two items does not depend on which is asked first
-- (frontend/lib/list-constellation.ts, `battleLink`).
use rank_verse.Base.{
  ℕ, ◌≡◌, refl, sym, ap, ◌∙◌, String, Bool, true, false, ◌||◌, Option, none, some, List, [], ◌∷◌,
  arith, str_eq, eq_iff,
}
use rank_verse.Constellation.{EntityRef, ListItem, genres_of, has_id, same_ref, shared_refs}
use rank_verse.Constellation.Link.{battle_link, link_by_genres}

str_eq_comm : (a b : String) → str_eq a b ≡ str_eq b a
str_eq_comm a b = ground (arith, eq_iff a b, eq_iff b a)

same_ref_comm : (p q : Option EntityRef) → same_ref p q ≡ same_ref q p
same_ref_comm none none = refl
same_ref_comm none (some q) = refl
same_ref_comm (some p) none = refl
same_ref_comm (some p) (some q) = str_eq_comm q.id p.id

-- Some id stands in both lists.
meets : List EntityRef → List EntityRef → Bool
meets [] ys = false
meets (x ∷ xs) ys = has_id x.id ys || meets xs ys

meets-nil : (xs : List EntityRef) → meets xs [] ≡ false
unfolding meets has_id
meets-nil [] = refl
meets-nil (x ∷ xs) = meets-nil xs

meets-cons :
    (xs : List EntityRef) (y : EntityRef) (ys : List EntityRef)
    → meets xs (y ∷ ys) ≡ (has_id y.id xs || meets xs ys)
unfolding meets has_id
meets-cons [] y ys = refl
meets-cons (x ∷ xs) y ys = ground (arith, meets-cons xs y ys, str_eq_comm y.id x.id)

meets_comm : (xs ys : List EntityRef) → meets xs ys ≡ meets ys xs
unfolding meets
meets_comm [] ys = sym (meets-nil ys)
meets_comm (x ∷ xs) ys = ap (λ b. has_id x.id ys || b) (meets_comm xs ys) ∙ sym (meets-cons ys x xs)

abbrev rank_of : Bool → ℕ
rank_of true = 2
rank_of false = 3

tier-shared_refs :
    (xs ys : List EntityRef) → (link_by_genres (shared_refs xs ys)).tier ≡ rank_of (meets xs ys)
unfolding shared_refs meets
tier-shared_refs [] ys = refl
tier-shared_refs (x ∷ xs) ys = ground (arith, tier-shared_refs xs ys)

kind-shared_refs :
    (xs ys : List EntityRef)
    → (link_by_genres (shared_refs xs ys)).tier ≡ (link_by_genres (shared_refs ys xs)).tier
    → (link_by_genres (shared_refs xs ys)).kind ≡ (link_by_genres (shared_refs ys xs)).kind
kind-shared_refs xs ys h = ground arith

-- Two items are linked as closely, and in the same way, whichever of them is named first.
battle_link_comm :
    (a b : ListItem)
    → ((battle_link a b).tier ≡ (battle_link b a).tier)
      × ((battle_link a b).kind ≡ (battle_link b a).kind)
unfolding battle_link
battle_link_comm a b =
    let tiers =
      tier-shared_refs (genres_of a) (genres_of b)
      ∙ ap rank_of (meets_comm (genres_of a) (genres_of b))
      ∙ sym (tier-shared_refs (genres_of b) (genres_of a)) in
    ground (
      arith,
      same_ref_comm a.director b.director,
      same_ref_comm a.lead_actor b.lead_actor,
      tiers,
      kind-shared_refs (genres_of a) (genres_of b) tiers,
    )
