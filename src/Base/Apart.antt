-- ===== src/Base/Apart.antt =====
-- Lists whose entries have different keys.
use mathlib.Core.Path.{◌≡◌}
use mathlib.Core.Logic.{inl, inr}
use mathlib.Core.Bool.{Bool, false}
use mathlib.Core.List.{List, [], ◌∷◌, ◌++◌}
use native.Mathlib.Omega.{arith}
use Prim.Native.Nat.{ℕ, zero, suc}
use Prim.Native.String.{String}
use text.Mathlib.Text.{◌==◌ as str_eq}
use rank_verse.Base.Lists.{All, take}
use rank_verse.Base.Tests.{Bool-cases}
use rank_verse.Base.Text.{str_eq-false}
use rank_verse.Base.Keep.{keep, some_of}
use rank_verse.Base.Sort.{insert, sort, insert-All, sort-All}

module _ {ℓ} {A : Type ℓ} (key : A → String) where
  -- No entry has this key.
  abbrev pub IsOther : String → List A → Type 0
  IsOther id xs = All (λ x. str_eq (key x) id ≡ false) xs

  abbrev pub AreApart : List A → Type 0
  AreApart [] = Unit
  AreApart (x ∷ xs) = IsOther (key x) xs × AreApart xs

  keep-IsOther : (p : A → Bool) (id : String) (xs : List A) → IsOther id xs → IsOther id (keep p xs)
  keep-IsOther p id [] h = tt
  keep-IsOther p id (x ∷ xs) h = elim (Bool-cases (p x)) [
    | inl e ↦ rw e (h.0, keep-IsOther p id xs h.1)
    | inr e ↦ rw e (keep-IsOther p id xs h.1)
  ]

  pub keep-AreApart : (p : A → Bool) (xs : List A) → AreApart xs → AreApart (keep p xs)
  keep-AreApart p [] h = tt
  keep-AreApart p (x ∷ xs) h = elim (Bool-cases (p x)) [
    | inl e ↦ rw e (keep-IsOther p (key x) xs h.0, keep-AreApart p xs h.1)
    | inr e ↦ rw e (keep-AreApart p xs h.1)
  ]

  take-IsOther : (n : ℕ) (id : String) (xs : List A) → IsOther id xs → IsOther id (take n xs)
  take-IsOther zero id xs h = tt
  take-IsOther (suc n) id [] h = tt
  take-IsOther (suc n) id (x ∷ xs) h = (h.0, take-IsOther n id xs h.1)

  pub take-AreApart : (n : ℕ) (xs : List A) → AreApart xs → AreApart (take n xs)
  take-AreApart zero xs h = tt
  take-AreApart (suc n) [] h = tt
  take-AreApart (suc n) (x ∷ xs) h = (take-IsOther n (key x) xs h.0, take-AreApart n xs h.1)

  append-IsOther :
      (id : String) (xs : List A) (x : A)
      → IsOther id xs
      → str_eq (key x) id ≡ false
      → IsOther id (xs ++ x ∷ [])
  append-IsOther id [] x h k = (k, tt)
  append-IsOther id (y ∷ xs) x h k = (h.0, append-IsOther id xs x h.1 k)

  -- A new entry at the end.
  pub append-AreApart :
      (xs : List A) (x : A)
      → some_of (λ y. str_eq (key y) (key x)) xs ≡ false
      → AreApart xs
      → AreApart (xs ++ x ∷ [])
  append-AreApart [] x e h = (tt, tt)
  append-AreApart (y ∷ xs) x e h = elim (Bool-cases (str_eq (key y) (key x))) [
    | inl f ↦ absurd (ground arith)
    | inr f ↦ (
      append-IsOther (key y) xs x h.0 (str_eq-false (key y) (key x) f),
      append-AreApart xs x (ground arith) h.1,
    )
  ]

  module _ (le : A → A → Bool) where
    insert-AreApart :
        (x : A) (xs : List A) → IsOther (key x) xs → AreApart xs → AreApart (insert le x xs)
    unfolding insert
    insert-AreApart x [] h a = (tt, tt)
    insert-AreApart x (y ∷ xs) h a = elim (Bool-cases (le x y)) [
      | inl e ↦ rw e (h, a)
      | inr e ↦ rw e (
        insert-All le (λ z. str_eq (key z) (key y) ≡ false) x xs (str_eq-false (key y) (key x) h.0)
            a.0,
        insert-AreApart x xs h.1 a.1,
      )
    ]

    pub sort-AreApart : (xs : List A) → AreApart xs → AreApart (sort le xs)
    unfolding sort
    sort-AreApart [] a = tt
    sort-AreApart (x ∷ xs) a =
        insert-AreApart x (sort le xs) (sort-All le (λ z. str_eq (key z) (key x) ≡ false) xs a.0)
          (sort-AreApart xs a.1)
