-- ===== src/Sitemap/Escape.antt =====
-- XML escaping (frontend/lib/sitemap.ts, `xmlEscape`).
use rank_verse.Base.{
  ℕ, zero, suc, length, Option, none, some, ◌≡◌, ◌≢◌, refl, ap, ◌∙◌, sym, List, [], ◌∷◌, ◌++◌,
  arith, ◌==◌, ◌||◌, Bool, if◌then◌else◌, All,
}
use mathlib.Core.Path.{subst}
use rank_verse.Base.Text.{Text, codes}
use rank_verse.Sitemap.{xml_escape}

-- What becomes of one unit.
abbrev pub entity : ℕ → Text
entity c =
    if c == b'&'
    then codes "&amp;"
    else if c == b'<'
    then codes "&lt;"
    else if c == b'>'
    then codes "&gt;"
    else if c == b'"'
    then codes "&quot;"
    else if c == b'\''
    then codes "&apos;"
    else c ∷ []

xml_escape-cons : (c : ℕ) (s : Text) → xml_escape (c ∷ s) ≡ entity c ++ xml_escape s
unfolding xml_escape
xml_escape-cons c s = ground arith

abbrev strip_prefix : Text → Text → Option Text
strip_prefix [] s = some s
strip_prefix (p ∷ ps) [] = none
strip_prefix (p ∷ ps) (c ∷ s) = if p == c then strip_prefix ps s else none

-- The entity that a text opens with, and what follows it.
read_entity : List (ℕ × Text) → Text → Option (ℕ × Text)
read_entity [] s = none
read_entity ((c, name) ∷ rows) s = elim (strip_prefix name s) [
  | none ↦ read_entity rows s
  | some rest ↦ some (c, rest)
]

abbrev entities : List (ℕ × Text)
entities =
    (b'&', codes "&amp;")
    ∷ (b'<', codes "&lt;")
    ∷ (b'>', codes "&gt;")
    ∷ (b'"', codes "&quot;")
    ∷ (b'\'', codes "&apos;")
    ∷ []

-- A unit that an XML reader refuses where it does not open an entity it knows.
is_markup : ℕ → Bool
is_markup c = c == b'&' || c == b'<' || c == b'>' || c == b'"' || c == b'\''

put_first : ℕ → Option Text → Option Text
put_first c none = none
put_first c (some s) = some (c ∷ s)

-- What a strict XML reader makes of a text that stands for at most so many units; none where it refuses
-- the text, or where the text is longer.
pub unescape : ℕ → Text → Option Text
unescape n [] = some []
unescape zero (c ∷ s) = none
unescape (suc n) (c ∷ s) = elim (read_entity entities (c ∷ s)) [
  | none ↦ let rest = unescape n s in if is_markup c then none else put_first c rest
  | some (d, rest) ↦ put_first d (unescape n rest)
]

unescape-entity :
    (n c : ℕ) (s : Text) → unescape (suc n) (entity c ++ s) ≡ put_first c (unescape n s)
unfolding unescape read_entity is_markup
unescape-entity n c s = ground arith

-- A strict XML reader, which refuses angle brackets, quotes and ampersands that are not part of one of
-- the five entities, reads an escaped text back as it was, to its end.
pub unescape-xml_escape : (s : Text) → unescape (length s) (xml_escape s) ≡ some s
unescape-xml_escape [] = unfold unescape xml_escape in refl
unescape-xml_escape (c ∷ s) =
    ap (unescape (suc (length s))) (xml_escape-cons c s)
    ∙ unescape-entity (length s) c (xml_escape s)
    ∙ ap (put_first c) (unescape-xml_escape s)
    ∙ unfold put_first in refl

-- The units that may not stand in an attribute or a text as they are.
abbrev pub IsPlain : ℕ → Type 0
IsPlain c = (c ≢ b'<') × (c ≢ b'>') × (c ≢ b'"') × (c ≢ b'\'')

All-IsPlain-entity : (c : ℕ) (s : Text) → All IsPlain s → All IsPlain (entity c ++ s)
All-IsPlain-entity c s h = ground arith

-- No angle bracket and no quote is left in an escaped text.
pub xml_escape-IsPlain : (s : Text) → All IsPlain (xml_escape s)
xml_escape-IsPlain [] = unfold xml_escape in tt
xml_escape-IsPlain (c ∷ s) =
    subst (All IsPlain) (sym (xml_escape-cons c s))
      (All-IsPlain-entity c (xml_escape s) (xml_escape-IsPlain s))
