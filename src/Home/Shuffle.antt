-- ===== src/Home/Shuffle.antt =====
-- frontend/lib/home-lists.ts: the tabs of lists, whose cards are sampled anew on each visit.
use mathlib.Core.List.{Perm}
use mathlib.Core.List.Perm
use rank_verse.Base.{
  ℕ, zero, suc, ◌-◌, Bool, false, not, String, Option, none, some, List, [], ◌∷◌, length, take,
  get_elem?, str_eq, ◌≡◌, refl,
}
use rank_verse.Base.Keep.{keep}

pub data ListTab : Type 0 where
  foryou fresh picked : ListTab

pub data Sort : Type 0 where
  newest popular : Sort

-- Each tab fetches a wider pool than it shows.
abbrev pub pool_size : ℕ
pool_size = 20

pub record Query : Type 0 where
  pub sort : Sort
  pub page_size : ℕ

unfoldable pub discover_query_for : ListTab → Option Query
discover_query_for foryou = some (record { sort = popular; page_size = pool_size })
discover_query_for fresh = some (record { sort = newest; page_size = pool_size })
discover_query_for picked = none

module _ {ℓ} {A : Type ℓ} where
  abbrev pub set_at : ℕ → A → List A → List A
  set_at i y [] = []
  set_at zero y (x ∷ xs) = y ∷ xs
  set_at (suc i) y (x ∷ xs) = x ∷ set_at i y xs

  -- `[a[i], a[j]] = [a[j], a[i]]`; an index past the end leaves the array.
  abbrev swapped : ℕ → ℕ → Option A → Option A → List A → List A
  swapped i j (some x) (some y) a = set_at j x (set_at i y a)
  swapped i j none y a = a
  swapped i j (some x) none a = a

  unfoldable pub swap_entries : ℕ → ℕ → List A → List A
  swap_entries i j a = swapped i j (get_elem? a i) (get_elem? a j) a

  -- The loop from `i` down to 1; `draw i` is `Math.floor(Math.random() * (i + 1))`.
  unfoldable pub shuffle_from : (ℕ → ℕ) → ℕ → List A → List A
  unfolding swap_entries
  shuffle_from draw zero a = a
  shuffle_from draw (suc i) a = shuffle_from draw i (swap_entries (suc i) (draw (suc i)) a)

  unfoldable pub shuffle : (ℕ → ℕ) → List A → List A
  unfolding shuffle_from
  shuffle draw items = shuffle_from draw (length items - 1) items

-- A list's card, as far as the sampling reads it.
pub record ListSummary : Type 0 where
  pub id : String
  pub slug : String

abbrev pub is_slug : Option String → String → Bool
is_slug none slug = false
is_slug (some featured) slug = str_eq slug featured

unfoldable pub without_featured : List ListSummary → Option String → ℕ → List ListSummary
without_featured lists featured_slug max =
    take max (keep (λ l. not (is_slug featured_slug l.slug)) lists)

module _ {ℓ} {A : Type ℓ} where
  set_at-perm :
      (i : ℕ) (x y : A) (xs : List A) → get_elem? xs i ≡ some x → Perm (y ∷ xs) (x ∷ set_at i y xs)
  set_at-perm i x y [] e = cc
  set_at-perm zero x y (z ∷ xs) e = let same : z ≡ x = cc in rw same (Perm.swap x y xs)
  set_at-perm (suc i) x y (z ∷ xs) e =
      Perm.trans (Perm.swap z y xs)
        (Perm.trans (Perm.cons z (set_at-perm i x y xs e)) (Perm.swap x z (set_at i y xs)))

  -- What stands at `j` after `y` was written at `i`, if `y` stood at `j` before.
  get_elem?-set_at :
      (i j : ℕ) (y : A) (xs : List A)
      → get_elem? xs j ≡ some y
      → get_elem? (set_at i y xs) j ≡ some y
  get_elem?-set_at i j y [] e = e
  get_elem?-set_at zero zero y (z ∷ xs) e = refl
  get_elem?-set_at zero (suc j) y (z ∷ xs) e = e
  get_elem?-set_at (suc i) zero y (z ∷ xs) e = e
  get_elem?-set_at (suc i) (suc j) y (z ∷ xs) e = get_elem?-set_at i j y xs e

  swapped-perm :
      (i j : ℕ) (x y : Option A) (a : List A)
      → get_elem? a i ≡ x
      → get_elem? a j ≡ y
      → Perm (swapped i j x y a) a
  swapped-perm i j none y a e f = Perm.refl a
  swapped-perm i j (some x) none a e f = Perm.refl a
  swapped-perm i j (some x) (some y) a e f =
      let first = set_at-perm i x y a e in
      let second = set_at-perm j y x (set_at i y a) (get_elem?-set_at i j y a f) in
      Perm.symm (Perm.cons_inv (Perm.trans first second))

  shuffle_from-perm : (draw : ℕ → ℕ) (i : ℕ) (a : List A) → Perm (shuffle_from draw i a) a
  unfolding shuffle_from swap_entries
  shuffle_from-perm draw zero a = Perm.refl a
  shuffle_from-perm draw (suc i) a = Perm.trans (shuffle_from-perm draw i _) (
      swapped-perm (suc i) (draw (suc i)) (get_elem? a (suc i)) (get_elem? a (draw (suc i))) a refl
        refl)

  -- Whatever is drawn, a shuffle keeps every entry, as often as it was there.
  shuffle-perm : (draw : ℕ → ℕ) (items : List A) → Perm (shuffle draw items) items
  unfolding shuffle
  shuffle-perm draw items = shuffle_from-perm draw (length items - 1) items
