-- ===== src/Labels/Digits/Laws.antt =====
-- Decimal texts and Persian digits (frontend/lib/format-number.ts).
use rank_verse.Base.{
  ℕ, zero, suc, ◌+◌, ◌-◌, ◌*◌, ◌%◌, ◌/◌, ◌≡◌, ◌<◌, refl, ap, ◌∙◌, true, false, [], ◌∷◌, arith, ltb,
  length, All, Bool-cases, inl, inr,
}
use rank_verse.Base.Text.{Text}
use rank_verse.Labels.Digits.{is_digit, fa_zero, fa_digit, to_fa_digits, decimal_from, decimal}

-- The number that decimal digits stand for, behind the digits of `n`.
unfoldable pub read_digits : ℕ → Text → ℕ
read_digits n [] = n
read_digits n (c ∷ s) = read_digits (10 * n + (c - b'0')) s

read_digits-decimal_from :
    (fuel n : ℕ) (tail : Text)
    → n < fuel
    → read_digits 0 (decimal_from fuel n tail) ≡ read_digits n tail
unfolding read_digits decimal_from
read_digits-decimal_from zero n tail h = elim h [ ]
read_digits-decimal_from (suc fuel) n tail h = elim (Bool-cases (ltb n 10)) [
  | inl e ↦
      let same : 10 * 0 + (b'0' + n % 10 - b'0') ≡ n = ground arith in
      rw e (ap (λ k. read_digits k tail) same)
  | inr e ↦
      let same : 10 * (n / 10) + (b'0' + n % 10 - b'0') ≡ n = omega arith in
      rw e (
        read_digits-decimal_from fuel (n / 10) ((b'0' + n % 10) ∷ tail) (ground arith)
        ∙ ap (λ k. read_digits k tail) same)
]

-- The decimal text of a number reads back as the number.
pub read_digits-decimal : (n : ℕ) → read_digits 0 (decimal n) ≡ n
unfolding decimal read_digits
read_digits-decimal n = read_digits-decimal_from (suc n) n [] (omega arith)

All-is_digit-decimal_from :
    (fuel n : ℕ) (tail : Text)
    → All (λ c. is_digit c ≡ true) tail
    → All (λ c. is_digit c ≡ true) (decimal_from fuel n tail)
unfolding decimal_from
All-is_digit-decimal_from zero n tail h = h
All-is_digit-decimal_from (suc fuel) n tail h =
    ground (arith, All-is_digit-decimal_from fuel (n / 10) ((b'0' + n % 10) ∷ tail))

pub decimal-All-is_digit : (n : ℕ) → All (λ c. is_digit c ≡ true) (decimal n)
unfolding decimal
decimal-All-is_digit n = All-is_digit-decimal_from (suc n) n [] tt

decimal_from-cons :
    (fuel n c : ℕ) (s : Text) → (d : ℕ) × (r : Text) × (decimal_from fuel n (c ∷ s) ≡ d ∷ r)
unfolding decimal_from
decimal_from-cons zero n c s = (c, s, refl)
decimal_from-cons (suc fuel) n c s = elim (Bool-cases (ltb n 10)) [
  | inl e ↦ (b'0' + n % 10, c ∷ s, rw e refl)
  | inr e ↦ rw e (decimal_from-cons fuel (n / 10) _ (c ∷ s))
]

pub decimal-cons : (n : ℕ) → (d : ℕ) × (r : Text) × (decimal n ≡ d ∷ r)
unfolding decimal
decimal-cons n = elim (Bool-cases (ltb n 10)) [
  | inl e ↦ (b'0' + n % 10, [], rw e refl)
  | inr e ↦ rw e (decimal_from-cons n (n / 10) _ [])
]

-- The number that Persian digits stand for, behind the digits of `n`.
pub read_fa_digits : ℕ → Text → ℕ
read_fa_digits n [] = n
read_fa_digits n (c ∷ s) = read_fa_digits (10 * n + (c - fa_zero)) s

read_fa_digits-to_fa_digits :
    (n : ℕ) (s : Text)
    → All (λ c. is_digit c ≡ true) s
    → read_fa_digits n (to_fa_digits s) ≡ read_digits n s
unfolding read_fa_digits read_digits to_fa_digits
read_fa_digits-to_fa_digits n [] h = refl
read_fa_digits-to_fa_digits n (c ∷ s) h =
    let same : fa_digit c - fa_zero ≡ c - b'0' = ground arith in
    ap (λ d. read_fa_digits (10 * n + d) (to_fa_digits s)) same
    ∙ read_fa_digits-to_fa_digits (10 * n + (c - b'0')) s h.1

-- The Persian digits of a number, read by their values, give the number back.
read_fa_digits-decimal : (n : ℕ) → read_fa_digits 0 (to_fa_digits (decimal n)) ≡ n
read_fa_digits-decimal n =
    read_fa_digits-to_fa_digits 0 (decimal n) (decimal-All-is_digit n) ∙ read_digits-decimal n

-- No ASCII digit is left in a text, its length is kept, and a second pass changes nothing.
to_fa_digits_lem :
    (s : Text)
    → All (λ c. is_digit c ≡ false) (to_fa_digits s)
      × (length (to_fa_digits s) ≡ length s)
      × (to_fa_digits (to_fa_digits s) ≡ to_fa_digits s)
unfolding to_fa_digits
to_fa_digits_lem [] = (tt, refl, refl)
to_fa_digits_lem (c ∷ s) = ground (arith, to_fa_digits_lem s)
