-- ===== src/Pagination/Window.antt =====
-- What a pager shows (frontend/lib/pagination.ts, `pageWindow`).
use rank_verse.Base.{
  ℕ, ◌+◌, ◌≤◌, ◌≡◌, refl, ◌∙◌, Bool, true, false, ◌||◌, Option, none, some, List, [], ◌∷◌, arith,
  leb, ◌==◌, Bool-cases, inl, inr,
}
use rank_verse.Base.Sort
use rank_verse.Pagination.{mem, wanted, fill, with_gaps, page_window, current_page}
use rank_verse.Pagination.Wanted.{is_wanted, mem-wanted, mem-sort, Asc, Asc-mem, wanted-Asc}

-- From page `p` on, the entries name every page up to `total` in order, but for those behind a mark,
-- which stands for at least two.
abbrev pub Walks : ℕ → List (Option ℕ) → ℕ → Type 0
Walks p [] total = p ≡ total
Walks p (some q ∷ rest) total = (q ≡ p + 1) × Walks q rest total
Walks p (none ∷ some q ∷ rest) total = (p + 3 ≤ q) × Walks q rest total
Walks p (none ∷ none ∷ rest) total = ⊥
Walks p (none ∷ []) total = ⊥

abbrev last_from : ℕ → List ℕ → ℕ
last_from p [] = p
last_from p (q ∷ ps) = last_from q ps

fill-Walks :
    (p : ℕ) (ps : List ℕ) (total : ℕ)
    → Asc p ps
    → last_from p ps ≡ total
    → Walks p (fill p ps) total
unfolding fill
fill-Walks p [] total a e = e
fill-Walks p (q ∷ ps) total a e = ground (arith, fill-Walks q ps total a.1 e)

last_from-eq :
    (p : ℕ) (ps : List ℕ) (total : ℕ)
    → Asc p ps
    → ((q : ℕ) → mem q (p ∷ ps) ≡ true → q ≤ total)
    → mem total (p ∷ ps) ≡ true
    → last_from p ps ≡ total
unfolding mem
last_from-eq p [] total a le m = ground arith
last_from-eq p (q ∷ ps) total a le m =
    last_from-eq q ps total a.1 (λ r k. le r (ground arith)) (ground (arith, le q))

-- The window opens with page 1.
abbrev pub IsWindow : List (Option ℕ) → ℕ → Type 0
IsWindow (some p ∷ rest) total = (p ≡ 1) × Walks p rest total
IsWindow _ total = ⊥

with_gaps-IsWindow :
    (ps : List ℕ) (total : ℕ)
    → Asc 0 ps
    → ((q : ℕ) → mem q ps ≡ true → q ≤ total)
    → mem 1 ps ≡ true
    → mem total ps ≡ true
    → IsWindow (with_gaps ps) total
unfolding with_gaps mem
with_gaps-IsWindow [] total a le one all = cc
with_gaps-IsWindow (p ∷ ps) total a le one all =
    (ground (arith, Asc-mem p 1 ps), fill-Walks p ps total a.1 (last_from-eq p ps total a.1 le all))

mem-sorted :
    (page total around q : ℕ)
    → 2 ≤ total
    → mem q (Sort.sort leb (wanted page total around)) ≡ is_wanted page total around q
mem-sorted page total around q h =
    mem-sort q (wanted page total around) ∙ mem-wanted page total around q h

-- Where there are pages, the window opens with the first, ends with the last, is in order, and
-- collapses no gap of a single page.
pub page_window-IsWindow :
    (page total around : ℕ) → 1 ≤ total → IsWindow (page_window page total around) total
unfolding page_window
page_window-IsWindow page total around h = elim (Bool-cases (leb total 1)) [
  | inl e ↦ rw (e, page_window) (refl, ground arith)
  | inr e ↦
      rw (e, page_window)
        (with_gaps-IsWindow (Sort.sort leb (wanted page total around)) total
          (wanted-Asc page total around (ground arith))
          (λ q m. ground (arith, mem-sorted page total around q (ground arith)))
          (ground (arith, mem-sorted page total around 1 (ground arith)))
          (ground (arith, mem-sorted page total around total (ground arith))))
]

-- A page is named in a window.
pub shows : ℕ → List (Option ℕ) → Bool
shows q [] = false
shows q (none ∷ out) = shows q out
shows q (some p ∷ out) = p == q || shows q out

shows-fill : (q p : ℕ) (ps : List ℕ) → mem q ps ≡ true → shows q (fill p ps) ≡ true
unfolding shows fill mem
shows-fill q p [] m = cc
shows-fill q p (r ∷ ps) m = ground (arith, shows-fill q r ps)

shows-with_gaps : (q : ℕ) (ps : List ℕ) → mem q ps ≡ true → shows q (with_gaps ps) ≡ true
unfolding with_gaps shows mem
shows-with_gaps q [] m = cc
shows-with_gaps q (p ∷ ps) m = ground (arith, shows-fill q p ps)

-- Every page within `around` of the current one is named, the current one included, which is the
-- page asked for where it is among the pages.
page_window-shows :
    (page total around q : ℕ)
    → 1 ≤ q
    → q ≤ total
    → current_page page total ≤ q + around
    → q ≤ current_page page total + around
    → shows q (page_window page total around) ≡ true
unfolding page_window
page_window-shows page total around q h k l m = elim (Bool-cases (leb total 1)) [
  | inl e ↦ rw (e, page_window) (unfold shows in ground arith)
  | inr e ↦
      rw (e, page_window)
        (shows-with_gaps q (Sort.sort leb (wanted page total around))
          (ground (arith, mem-sorted page total around q (ground arith))))
]
