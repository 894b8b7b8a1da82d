-- ===== src/Pagination.antt =====
-- frontend/lib/pagination.ts. Page numbers are natural; `null`, a collapsed gap, is `none`. A negative
-- page is clamped as 0 is, and the loop's numbers below 1 are not wanted.
mod Wanted
pub mod Window
mod Tests
use rank_verse.Base.{
  ℕ, zero, suc, ◌+◌, ◌-◌, min, max, Bool, true, false, ◌&&◌, ◌||◌, Option, none, some, List, [],
  ◌∷◌, ◌++◌, ltb, leb, ◌==◌, if◌then◌else◌,
}
use rank_verse.Base.Sort

-- `Set.prototype.has` and `add`
unfoldable pub mem : ℕ → List ℕ → Bool
mem q [] = false
mem q (p ∷ ps) = p == q || mem q ps

unfoldable pub add : ℕ → List ℕ → List ℕ
unfolding mem
add p s = if mem p s then s else s ++ p ∷ []

-- `for (let p = first; …) if (p >= 1 && p <= totalPages) wanted.add(p)`, with its rounds counted.
unfoldable pub want : ℕ → ℕ → ℕ → List ℕ → List ℕ
unfolding add
want total p zero s = s
want total p (suc n) s = want total (p + 1) n (if leb 1 p && leb p total then add p s else s)

-- `Math.min(Math.max(page, 1), totalPages)`
abbrev pub current_page : ℕ → ℕ → ℕ
current_page page total = min (max page 1) total

unfoldable pub wanted : ℕ → ℕ → ℕ → List ℕ
unfolding want
wanted page total around =
    let current = current_page page total in
    let lo = current - around in want total lo (current + around + 1 - lo) (add total (1 ∷ []))

-- The rest of the `forEach`, after the page `prev`.
unfoldable pub fill : ℕ → List ℕ → List (Option ℕ)
fill prev [] = []
fill prev (p ∷ ps) =
    let rest = some p ∷ fill p ps in
    if p - prev == 2 then some (prev + 1) ∷ rest else if ltb 2 (p - prev) then none ∷ rest else rest

unfoldable pub with_gaps : List ℕ → List (Option ℕ)
unfolding fill
with_gaps [] = []
with_gaps (p ∷ ps) = some p ∷ fill p ps

unfoldable pub page_window : ℕ → ℕ → ℕ → List (Option ℕ)
page_window page total around =
    if leb total 1 then some 1 ∷ [] else with_gaps (Sort.sort leb (wanted page total around))
