-- ===== src/Constellation/Anchor/Laws.antt =====
-- Where the anchor of a list's battle stands
-- (frontend/components/list-detail/ListBattleContext.tsx).
use native.Mathlib.Decide.{dec_lt}
use rank_verse.Base.{
  ℕ, zero, suc, ◌+◌, ◌%◌, ◌≤◌, ◌<◌, ◌≡◌, ◌⊎◌, inl, inr, refl, String, true, false, Option, none,
  some, List, [], ◌∷◌, length, get_elem?, str_eq, eq_iff, arith, Bool-cases, ◌∙◌, ap,
}
use rank_verse.Constellation.{ListItem}
use rank_verse.Constellation.Anchor.{
  has_opponents, default_from, default_anchor, next_from, next_anchor, find_id, ListBattle, start,
  anchor,
}

-- Nobody below `n` has opponents, or this is the last index below `n` that has.
abbrev pub IsLast : List ListItem → ℕ → ℕ → Type 0
IsLast items n r =
    ((r ≡ 0) × ((i : ℕ) → i < n → has_opponents items i ≡ false))
    ⊎ ((r < n)
        × (has_opponents items r ≡ true)
        × ((i : ℕ) → r < i → i < n → has_opponents items i ≡ false))

IsLast-skip :
    (items : List ListItem) (n r : ℕ)
    → has_opponents items n ≡ false
    → IsLast items n r
    → IsLast items (suc n) r
IsLast-skip items n r e (inl (z, h)) = inl (z, λ i p. ground (arith, h i))
IsLast-skip items n r e (inr (l, t, h)) = inr (omega arith, t, λ i p q. ground (arith, h i p))

default_from-IsLast : (items : List ListItem) (n : ℕ) → IsLast items n (default_from items n)
unfolding default_from
default_from-IsLast items zero = inl (refl, λ i p. absurd (omega arith))
default_from-IsLast items (suc n) = elim (Bool-cases (has_opponents items n)) [
  | inl e ↦ rw e (inr (omega arith, e, λ i p q. absurd (omega arith)))
  | inr e ↦ rw e (IsLast-skip items n _ e (default_from-IsLast items n))
]

-- The first of `current + step`, `current + step + 1`, … (wrapping, `n` of them) that has opponents, or
-- `current` where none has.
abbrev pub IsNext : List ListItem → ℕ → ℕ → ℕ → ℕ → Type 0
IsNext items current step n r =
    ((r ≡ current)
      × ((k : ℕ)
          → step ≤ k
          → k < step + n
          → has_opponents items ((current + k) % length items) ≡ false))
    ⊎ ((k : ℕ) × (step ≤ k)
        × (k < step + n)
        × (r ≡ (current + k) % length items)
        × (has_opponents items r ≡ true)
        × ((j : ℕ) → step ≤ j → j < k → has_opponents items ((current + j) % length items) ≡ false))

IsNext-skip :
    (items : List ListItem) (current step n r : ℕ)
    → has_opponents items ((current + step) % length items) ≡ false
    → IsNext items current (step + 1) n r
    → IsNext items current step (suc n) r
IsNext-skip items current step n r e (inl (z, h)) = inl (
  z,
  λ k p q. elim (dec_lt step k) [
    | yes b ↦ h k (omega arith) (omega arith)
    | no b ↦ let same : k ≡ step = omega arith in rw same e
  ],
)
IsNext-skip items current step n r e (inr (k, p, q, s, t, h)) = inr (
  k,
  omega arith,
  omega arith,
  s,
  t,
  λ j l m. elim (dec_lt step j) [
    | yes b ↦ h j (omega arith) m
    | no b ↦ let same : j ≡ step = omega arith in rw same e
  ],
)

next_from-IsNext :
    (items : List ListItem) (current step n : ℕ)
    → IsNext items current step n (next_from items current step n)
unfolding next_from
next_from-IsNext items current step zero = inl (refl, λ k p q. absurd (omega arith))
next_from-IsNext items current step (suc n) =
    elim (Bool-cases (has_opponents items ((current + step) % length items))) [
      | inl e ↦ rw e (inr (step, omega arith, omega arith, refl, e, λ j l m. absurd (omega arith)))
      | inr e ↦
          rw e (IsNext-skip items current step n _ e (next_from-IsNext items current (step + 1) n))
    ]

-- The default anchor is the last item that has somebody to battle (0 where nobody has), and the next
-- anchor is the first after the current one, wrapping round, that has (the current one where none has).
anchors-lem :
    (items : List ListItem) (current : ℕ)
    → IsLast items (length items) (default_anchor items)
      × IsNext items current 1 (length items) (next_anchor items current)
unfolding default_anchor next_anchor
anchors-lem items current =
    (default_from-IsLast items (length items), next_from-IsNext items current 1 (length items))

abbrev id_or : Option ListItem → String → String
id_or none other = other
id_or (some item) other = item.id

find_id-lem :
    (id : String) (items : List ListItem) (k i : ℕ) (item : ListItem)
    → get_elem? items i ≡ some item
    → item.id ≡ id
    → (j : ℕ) × (b : ListItem) × (find_id id items k ≡ some (k + j))
      × (get_elem? items j ≡ some b)
      × (b.id ≡ id)
unfolding find_id
find_id-lem id [] k i item e p = cc
find_id-lem id (a ∷ items) k zero item e p =
    let s : a.id ≡ id = ap (λ o. id_or o a.id) e ∙ p in
    (0, a, rw ((eq_iff a.id id).1 s) (ap some (omega arith)), refl, s)
find_id-lem id (a ∷ items) k (suc i) item e p = elim (Bool-cases (str_eq a.id id)) [
  | inl s ↦ (0, a, rw s (ap some (omega arith)), refl, (eq_iff a.id id).0 s)
  | inr s ↦
      let (j, b, f, g, same) = find_id-lem id items (k + 1) i item e p in
      (suc j, b, rw s (f ∙ ap some (omega arith)), g, same)
]

-- The anchor is remembered by id: started at an item, it stands at an item of that id in whatever list
-- holds one later, items added, removed or moved in between.
anchor-start :
    (items later : List ListItem) (index i : ℕ) (item kept : ListItem) (s : ListBattle)
    → get_elem? items index ≡ some item
    → str_eq item.id "" ≡ false
    → get_elem? later i ≡ some kept
    → kept.id ≡ item.id
    → (b : ListItem) × (get_elem? later (anchor later (start items index s)) ≡ some b)
      × (b.id ≡ item.id)
unfolding anchor start
anchor-start items later index i item kept s at nonblank there same =
    let (j, b, f, g, e) = find_id-lem item.id later 0 i kept there same in
    let first : find_id item.id later 0 ≡ some j = f ∙ ap some (omega arith) in
    (b, rw at (rw nonblank (rw first g)), e)
