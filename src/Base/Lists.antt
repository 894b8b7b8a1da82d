-- ===== src/Base/Lists.antt =====
-- Lists measured and indexed by native numbers, under the library's names.
use Prim.Native.Nat.{ℕ, zero, suc, ◌+◌, ◌≤◌, ◌<◌}
use mathlib.Core.Path.{◌≡◌, refl, ap}
use mathlib.Core.List.{List, [], ◌∷◌, ◌++◌, map}
use mathlib.Core.Option.{Option, none, some}
use native.Mathlib.Omega.{arith}
use native.Mathlib.Numerals.{add-one}

module _ {ℓ} {A : Type ℓ} where
  abbrev pub length : List A → ℕ
  length [] = 0
  length (x ∷ xs) = suc (length xs)

  abbrev pub get_elem? : List A → ℕ → Option A
  get_elem? [] i = none
  get_elem? (x ∷ xs) zero = some x
  get_elem? (x ∷ xs) (suc i) = get_elem? xs i

  abbrev pub take : ℕ → List A → List A
  take zero xs = []
  take (suc n) [] = []
  take (suc n) (x ∷ xs) = x ∷ take n xs

  abbrev pub drop : ℕ → List A → List A
  drop zero xs = xs
  drop (suc n) [] = []
  drop (suc n) (x ∷ xs) = drop n xs

module _ {ℓ} {A : Type ℓ} where
  pub length-append : (xs ys : List A) → length (xs ++ ys) ≡ length xs + length ys
  length-append [] ys = omega arith
  length-append (x ∷ xs) ys = omega (arith, length-append xs ys)

  pub length-map {κ} : {B : Type κ} (f : A → B) (xs : List A) → length (map f xs) ≡ length xs
  length-map f [] = refl
  length-map f (x ∷ xs) = ap suc (length-map f xs)

module _ {ℓ} {A : Type ℓ} where
  -- What a nonempty rest says of the list that it was dropped from.
  pub get_elem?-drop :
      (n : ℕ) (xs : List A) {x : A} {r : List A} → drop n xs ≡ x ∷ r → get_elem? xs n ≡ some x
  get_elem?-drop zero (y ∷ xs) h = ground arith
  get_elem?-drop zero [] h = cc
  get_elem?-drop (suc n) [] h = cc
  get_elem?-drop (suc n) (y ∷ xs) h = get_elem?-drop n xs h

  drop-suc : (n : ℕ) (xs : List A) {x : A} {r : List A} → drop n xs ≡ x ∷ r → drop (suc n) xs ≡ r
  drop-suc zero (y ∷ xs) h = ground arith
  drop-suc zero [] h = cc
  drop-suc (suc n) [] h = cc
  drop-suc (suc n) (y ∷ xs) h = drop-suc n xs h

  pub drop-add_one :
      (n : ℕ) (xs : List A) {x : A} {r : List A} → drop n xs ≡ x ∷ r → drop (n + 1) xs ≡ r
  drop-add_one n xs h = rw add-one (drop-suc n xs h)

  pub lt_of_drop : (n : ℕ) (xs : List A) {x : A} {r : List A} → drop n xs ≡ x ∷ r → n < length xs
  lt_of_drop zero (y ∷ xs) h = omega arith
  lt_of_drop zero [] h = cc
  lt_of_drop (suc n) [] h = cc
  lt_of_drop (suc n) (y ∷ xs) h = omega (arith, lt_of_drop n xs h)

  pub le_of_drop-nil : (n : ℕ) (xs : List A) → drop n xs ≡ [] → length xs ≤ n
  le_of_drop-nil zero [] h = omega arith
  le_of_drop-nil zero (y ∷ xs) h = cc
  le_of_drop-nil (suc n) [] h = omega arith
  le_of_drop-nil (suc n) (y ∷ xs) h = omega (arith, le_of_drop-nil n xs h)

module _ {ℓ κ} {A : Type ℓ} (P : A → Type κ) where
  abbrev pub All : List A → Type κ
  All [] = Unit
  All (x ∷ xs) = P x × All xs
