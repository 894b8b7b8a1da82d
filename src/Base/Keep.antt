-- ===== src/Base/Keep.antt =====
-- `Array.prototype.filter` and `some` with a Boolean test.
use mathlib.Core.Path.{◌≡◌, refl, ap}
use mathlib.Core.Logic.{inl, inr}
use mathlib.Core.Bool.{Bool, true, false, ◌||◌}
use mathlib.Core.List.{List, [], ◌∷◌, map, Perm, filter}
use mathlib.Core.List.Perm
use rank_verse.Base.Lists.{All}
use rank_verse.Base.Tests.{if◌then◌else◌, Bool-cases}

module _ {ℓ} {A : Type ℓ} (p : A → Bool) where
  abbrev pub keep : List A → List A
  keep [] = []
  keep (x ∷ xs) = let rest = keep xs in if p x then x ∷ rest else rest

  abbrev pub some_of : List A → Bool
  some_of [] = false
  some_of (x ∷ xs) = p x || some_of xs

module _ {ℓ κ} {A : Type ℓ} {B : Type κ} where
  -- A test of the images, made before or after the map.
  pub keep-map :
      (p : B → Bool) (f : A → B) (xs : List A) → keep p (map f xs) ≡ map f (keep (λ x. p (f x)) xs)
  keep-map p f [] = refl
  keep-map p f (x ∷ xs) = elim (Bool-cases (p (f x))) [
    | inl e ↦ rw e (ap (λ r. f x ∷ r) (keep-map p f xs))
    | inr e ↦ rw e (keep-map p f xs)
  ]

is_true : (b : Bool) → Dec (b ≡ true)
is_true true = yes refl
is_true false = no (λ e. cc)

module _ {ℓ} {A : Type ℓ} (p : A → Bool) where
  keep-filter : (xs : List A) → keep p xs ≡ filter (λ x. is_true (p x)) xs
  unfolding is_true
  keep-filter [] = refl
  keep-filter (x ∷ xs) = elim (Bool-cases (p x)) [
    | inl e ↦ rw e (ap (λ r. x ∷ r) (keep-filter xs))
    | inr e ↦ rw e (keep-filter xs)
  ]

  pub keep-perm : {xs ys : List A} → Perm xs ys → Perm (keep p xs) (keep p ys)
  keep-perm {xs} {ys} h = rw (keep-filter xs, keep-filter ys) (Perm.filter (λ x. is_true (p x)) h)

  pub keep-all : (xs : List A) → All (λ x. p x ≡ true) xs → keep p xs ≡ xs
  keep-all [] h = refl
  keep-all (x ∷ xs) h = rw h.0 (ap (λ r. x ∷ r) (keep-all xs h.1))
