-- ===== src/Pagination/Wanted.antt =====
-- The set of pages that a pager wants, sorted (frontend/lib/pagination.ts).
use rank_verse.Base.{
  ℕ, zero, suc, ◌+◌, ◌-◌, ◌≤◌, ◌<◌, ◌≡◌, refl, Bool, true, false, ◌&&◌, ◌||◌, List, [], ◌∷◌, ◌++◌,
  arith, ltb, leb, ◌==◌,
}
use rank_verse.Base.Sort
use rank_verse.Pagination.{mem, add, want, wanted, current_page}

mem-append : (q p : ℕ) (s : List ℕ) → mem q (s ++ p ∷ []) ≡ (mem q s || p == q)
unfolding mem
mem-append q p [] = ground arith
mem-append q p (r ∷ s) = ground (arith, mem-append q p s)

mem-add : (q p : ℕ) (s : List ℕ) → mem q (add p s) ≡ (mem q s || p == q)
unfolding add
mem-add q p s = ground (arith, mem-append q p s)

-- The number lies in the loop's range and among the pages.
abbrev in_range : ℕ → ℕ → ℕ → ℕ → Bool
in_range total p n q = leb p q && ltb q (p + n) && leb 1 q && leb q total

mem-want :
    (total p n q : ℕ) (s : List ℕ) → mem q (want total p n s) ≡ (mem q s || in_range total p n q)
unfolding want
mem-want total p zero q s = ground arith
mem-want total p (suc n) q s =
    ground
      (arith, mem-want total (p + 1) n q (add p s), mem-want total (p + 1) n q s, mem-add q p s)

-- A page is wanted if it is the first, the last or within `around` of the current one.
abbrev pub is_wanted : ℕ → ℕ → ℕ → ℕ → Bool
is_wanted page total around q =
    let current = current_page page total in
    leb 1 q
    && leb q total
    && (q == 1 || q == total || leb current (q + around) && leb q (current + around))

pub mem-wanted :
    (page total around q : ℕ)
    → 2 ≤ total
    → mem q (wanted page total around) ≡ is_wanted page total around q
unfolding wanted mem
mem-wanted page total around q h =
    let current = current_page page total in
    let lo = current - around in
    ground (
      arith,
      mem-want total lo (current + around + 1 - lo) q (add total (1 ∷ [])),
      mem-add q total (1 ∷ []),
    )

abbrev pub Asc : ℕ → List ℕ → Type 0
Asc lo [] = Unit
Asc lo (p ∷ ps) = (lo < p) × Asc p ps

abbrev Distinct : List ℕ → Type 0
Distinct [] = Unit
Distinct (p ∷ ps) = (mem p ps ≡ false) × Distinct ps

Distinct-append : (p : ℕ) (s : List ℕ) → mem p s ≡ false → Distinct s → Distinct (s ++ p ∷ [])
unfolding mem
Distinct-append p [] e h = (refl, tt)
Distinct-append p (q ∷ s) e h = ground (arith, mem-append q p s, Distinct-append p s)

Distinct-add : (p : ℕ) (s : List ℕ) → Distinct s → Distinct (add p s)
unfolding add
Distinct-add p s h = ground (arith, Distinct-append p s)

Distinct-want : (total p n : ℕ) (s : List ℕ) → Distinct s → Distinct (want total p n s)
unfolding want
Distinct-want total p zero s h = h
Distinct-want total p (suc n) s h = ground (
  arith,
  Distinct-want total (p + 1) n (add p s) (Distinct-add p s h),
  Distinct-want total (p + 1) n s h,
)

pub mem-insert : (q p : ℕ) (s : List ℕ) → mem q (Sort.insert leb p s) ≡ (p == q || mem q s)
unfolding Sort.insert mem
mem-insert q p [] = refl
mem-insert q p (r ∷ s) = ground (arith, mem-insert q p s)

pub mem-sort : (q : ℕ) (s : List ℕ) → mem q (Sort.sort leb s) ≡ mem q s
unfolding Sort.sort mem
mem-sort q [] = refl
mem-sort q (p ∷ s) = ground (arith, mem-insert q p (Sort.sort leb s), mem-sort q s)

Asc-insert :
    (lo p : ℕ) (s : List ℕ) → lo < p → mem p s ≡ false → Asc lo s → Asc lo (Sort.insert leb p s)
unfolding Sort.insert mem
Asc-insert lo p [] h e a = (h, tt)
Asc-insert lo p (q ∷ s) h e a = ground (arith, Asc-insert q p s)

-- Every number of the list is positive and wanted.
Asc-sort : (s : List ℕ) → ((q : ℕ) → mem q s ≡ true → 0 < q) → Distinct s → Asc 0 (Sort.sort leb s)
unfolding Sort.sort mem
Asc-sort [] pos d = tt
Asc-sort (p ∷ s) pos d =
    Asc-insert 0 p (Sort.sort leb s) (pos p (ground arith)) (rw (mem-sort p s) d.0)
      (Asc-sort s (λ q m. pos q (ground arith)) d.1)

pub Asc-mem : (p q : ℕ) (ps : List ℕ) → Asc p ps → mem q ps ≡ true → p < q
unfolding mem
Asc-mem p q [] a m = cc
Asc-mem p q (r ∷ ps) a m = ground (arith, Asc-mem r q ps)

wanted-Distinct : (page total around : ℕ) → Distinct (wanted page total around)
unfolding wanted mem
wanted-Distinct page total around =
    let current = current_page page total in
    let lo = current - around in
    Distinct-want total lo (current + around + 1 - lo) (add total (1 ∷ []))
      (Distinct-add total (1 ∷ []) (refl, tt))

-- The sorted pages ascend strictly from a positive one.
pub wanted-Asc :
    (page total around : ℕ) → 2 ≤ total → Asc 0 (Sort.sort leb (wanted page total around))
wanted-Asc page total around h =
    Asc-sort (wanted page total around) pos (wanted-Distinct page total around)
  where
    pos : (q : ℕ) → mem q (wanted page total around) ≡ true → 0 < q
    pos q m = ground (arith, mem-wanted page total around q h)
