-- ===== src/Base/Text.antt =====
-- Texts that the program walks, as their UTF-16 code units, with the operations of `String.prototype`
-- that it calls. Texts that it only compares are native strings.
use mathlib.Core.Path.{sym}
use mathlib.Core.Logic.{inl, inr}
use text.Mathlib.Text.{◌==◌ as str_eq}
use text.Mathlib.TextEquality.{eq_iff}
use rank_verse.Base.Tests.{Bool-cases}
use Prim.Native.Nat.{ℕ, ◌+◌}
use Prim.Native.Char.{code}
use Prim.Native.String.{String}
use mathlib.Core.Path.{◌≡◌}
use mathlib.Core.Logic.{◌↔◌}
use mathlib.Core.Bool.{Bool, true, false, ◌&&◌, ◌||◌}
use mathlib.Core.List.{List, [], ◌∷◌, ◌++◌}
use native.Mathlib.Omega.{arith}
use rank_verse.Base.Tests.{if◌then◌else◌, ◌==◌, leb}

abbrev pub Text : Type 0
Text = List ℕ

-- A literal.
abbrev pub codes : String → Text
codes String.[] = []
codes (String.◌∷◌ c s) = code c ∷ codes s

abbrev pub text_eq : Text → Text → Bool
text_eq [] [] = true
text_eq (a ∷ s) (b ∷ t) = a == b && text_eq s t
text_eq _ _ = false

-- What `trim` and `\s` take for white space.
abbrev pub is_space : ℕ → Bool
is_space c =
    leb 9 c && leb c 13
    || c == 32
    || c == 160
    || c == 5760
    || leb 8192 c && leb c 8202
    || c == 8232
    || c == 8233
    || c == 8239
    || c == 8287
    || c == 12288
    || c == 65279

-- Without the leading and the trailing units that pass the test.
unfoldable pub strip_start : (ℕ → Bool) → Text → Text
strip_start p [] = []
strip_start p (c ∷ s) = let rest = strip_start p s in if p c then rest else c ∷ s

unfoldable pub strip_end : (ℕ → Bool) → Text → Text
strip_end p [] = []
strip_end p (c ∷ s) = elim (strip_end p s) [
  | [] ↦ if p c then [] else c ∷ []
  | d ∷ rest ↦ c ∷ d ∷ rest
]

unfoldable pub trim : Text → Text
unfolding strip_start strip_end
trim s = strip_end is_space (strip_start is_space s)

-- `toLowerCase`, on ASCII letters.
abbrev pub lower_unit : ℕ → ℕ
lower_unit c = if leb b'A' c && leb c b'Z' then c + 32 else c

unfoldable pub to_lower : Text → Text
to_lower [] = []
to_lower (c ∷ s) = lower_unit c ∷ to_lower s

-- `split` on one unit, the part before the first separator under way.
unfoldable pub split_on : ℕ → Text → Text → List Text
split_on sep cur [] = cur ∷ []
split_on sep cur (c ∷ s) =
    let closed = cur ∷ split_on sep [] s in
    let longer = split_on sep (cur ++ c ∷ []) s in if c == sep then closed else longer

unfoldable pub join : Text → List Text → Text
join sep [] = []
join sep (x ∷ []) = x
join sep (x ∷ y ∷ xs) = x ++ sep ++ join sep (y ∷ xs)

pub text_eq_iff : (s t : Text) → (text_eq s t ≡ true) ↔ (s ≡ t)
text_eq_iff [] [] = ground arith
text_eq_iff [] (b ∷ t) = ground arith
text_eq_iff (a ∷ s) [] = ground arith
text_eq_iff (a ∷ s) (b ∷ t) = ground (arith, text_eq_iff s t)

-- Two texts that differ, named in the other order.
pub str_eq-false : (a b : String) → str_eq a b ≡ false → str_eq b a ≡ false
str_eq-false a b h = elim (Bool-cases (str_eq b a)) [
  | inl e ↦ let same = (eq_iff a b).1 (sym ((eq_iff b a).0 e)) in cc
  | inr e ↦ e
]
