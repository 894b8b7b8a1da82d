-- ===== src/Base/Sort.antt =====
-- `Array.prototype.sort` with a comparator: a stable sort. `le x y` is "the comparator's value at x
-- and y is not positive".
use mathlib.Core.Path.{◌≡◌, refl}
use mathlib.Core.Logic.{inl, inr}
use mathlib.Core.Bool.{Bool, true, false, ◌||◌}
use mathlib.Core.List.{List, [], ◌∷◌, Perm}
use mathlib.Core.List.Perm
use native.Mathlib.Omega.{arith}
use rank_verse.Base.Tests.{if◌then◌else◌, Bool-cases}
use rank_verse.Base.Lists.{All}
use rank_verse.Base.Keep.{some_of}

module _ {ℓ} {A : Type ℓ} (le : A → A → Bool) where
  unfoldable pub insert : A → List A → List A
  insert x [] = x ∷ []
  insert x (y ∷ ys) = let later = y ∷ insert x ys in if le x y then x ∷ y ∷ ys else later

  unfoldable pub sort : List A → List A
  unfolding insert
  sort [] = []
  sort (x ∷ xs) = insert x (sort xs)

  insert-perm : (x : A) (ys : List A) → Perm (insert x ys) (x ∷ ys)
  unfolding insert
  insert-perm x [] = Perm.refl _
  insert-perm x (y ∷ ys) = elim (Bool-cases (le x y)) [
    | inl e ↦ rw e (Perm.refl _)
    | inr e ↦ rw e (Perm.trans (Perm.cons y (insert-perm x ys)) (Perm.swap x y ys))
  ]

  pub sort-perm : (xs : List A) → Perm (sort xs) xs
  unfolding sort
  sort-perm [] = Perm.refl _
  sort-perm (x ∷ xs) = Perm.trans (insert-perm x (sort xs)) (Perm.cons x (sort-perm xs))

  -- No entry stands before one that the comparator puts strictly ahead of it.
  abbrev pub IsSorted : List A → Type ℓ
  IsSorted [] = Unit
  IsSorted (x ∷ xs) = All (λ y. le x y ≡ true) xs × IsSorted xs

  pub record IsPreorder : Type ℓ where
    pub total : (x y : A) → le x y ≡ false → le y x ≡ true
    pub trans : (x y z : A) → le x y ≡ true → le y z ≡ true → le x z ≡ true

  module _ (o : IsPreorder) where
    All-le :
        (x y : A) (ys : List A)
        → le x y ≡ true
        → All (λ z. le y z ≡ true) ys
        → All (λ z. le x z ≡ true) ys
    All-le x y [] e h = tt
    All-le x y (z ∷ ys) e h = (o.trans x y z e h.0, All-le x y ys e h.1)

    All-insert :
        (y x : A) (ys : List A)
        → le y x ≡ true
        → All (λ z. le y z ≡ true) ys
        → All (λ z. le y z ≡ true) (insert x ys)
    unfolding insert
    All-insert y x [] e h = (e, tt)
    All-insert y x (z ∷ ys) e h = ground (arith, All-insert y x ys e)

    insert-IsSorted : (x : A) (ys : List A) → IsSorted ys → IsSorted (insert x ys)
    unfolding insert
    insert-IsSorted x [] h = (tt, tt)
    insert-IsSorted x (y ∷ ys) h = elim (Bool-cases (le x y)) [
      | inl e ↦ rw e ((e, All-le x y ys e h.0), h)
      | inr e ↦ rw e (All-insert y x ys (o.total x y e) h.0, insert-IsSorted x ys h.1)
    ]

    pub sort-IsSorted : (xs : List A) → IsSorted (sort xs)
    unfolding sort
    sort-IsSorted [] = tt
    sort-IsSorted (x ∷ xs) = insert-IsSorted x (sort xs) (sort-IsSorted xs)

-- What holds of every entry still does when they are sorted.
module _ {ℓ κ} {A : Type ℓ} (le : A → A → Bool) (P : A → Type κ) where
  pub insert-All : (x : A) (xs : List A) → P x → All P xs → All P (insert le x xs)
  unfolding insert
  insert-All x [] p h = (p, tt)
  insert-All x (y ∷ xs) p h = elim (Bool-cases (le x y)) [
    | inl e ↦ rw e (p, h)
    | inr e ↦ rw e (h.0, insert-All x xs p h.1)
  ]

  pub sort-All : (xs : List A) → All P xs → All P (sort le xs)
  unfolding sort
  sort-All [] h = tt
  sort-All (x ∷ xs) h = insert-All x (sort le xs) h.0 (sort-All xs h.1)

-- An entry is found in a list and in the same list sorted.
module _ {ℓ} {A : Type ℓ} (le : A → A → Bool) (p : A → Bool) where
  some_of-insert : (x : A) (xs : List A) → some_of p (insert le x xs) ≡ (p x || some_of p xs)
  unfolding insert
  some_of-insert x [] = refl
  some_of-insert x (y ∷ xs) = ground (arith, some_of-insert x xs)

  pub some_of-sort : (xs : List A) → some_of p (sort le xs) ≡ some_of p xs
  unfolding sort
  some_of-sort [] = refl
  some_of-sort (x ∷ xs) = ground (arith, some_of-insert x (sort le xs), some_of-sort xs)
