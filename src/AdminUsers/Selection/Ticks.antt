-- ===== src/AdminUsers/Selection/Ticks.antt =====
-- The ids that frontend/app/admin/(protected)/users/AdminUsersManager.tsx keeps ticked stay apart.
use rank_verse.Base.{not, String, List, [], ◌∷◌, str_eq, Bool-cases, inl, inr}
use rank_verse.Base.Apart.{AreApart, keep-AreApart, append-AreApart}
use rank_verse.AdminUsers.Selection.{has_id, add_id, delete_id, add_each, delete_each}

abbrev pub AreIds : List String → Type 0
AreIds ids = AreApart (λ id. id) ids

pub add_id-AreIds : (id : String) (ids : List String) → AreIds ids → AreIds (add_id id ids)
add_id-AreIds id ids a = elim (Bool-cases (has_id id ids)) [
  | inl e ↦ rw e a
  | inr e ↦ rw e (append-AreApart (λ k. k) ids id e a)
]

pub delete_id-AreIds : (id : String) (ids : List String) → AreIds ids → AreIds (delete_id id ids)
delete_id-AreIds id ids a = keep-AreApart (λ k. k) (λ k. not (str_eq k id)) ids a

pub add_each-AreIds : (page ids : List String) → AreIds ids → AreIds (add_each page ids)
unfolding add_each
add_each-AreIds [] ids a = a
add_each-AreIds (id ∷ page) ids a = add_each-AreIds page (add_id id ids) (add_id-AreIds id ids a)

pub delete_each-AreIds : (page ids : List String) → AreIds ids → AreIds (delete_each page ids)
unfolding delete_each
delete_each-AreIds [] ids a = a
delete_each-AreIds (id ∷ page) ids a =
    delete_each-AreIds page (delete_id id ids) (delete_id-AreIds id ids a)
