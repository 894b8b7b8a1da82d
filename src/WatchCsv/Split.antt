-- ===== src/WatchCsv/Split.antt =====
-- Splitting a CSV line (frontend/lib/watch-links.ts, `splitCsvLine`) undoes writing it.
use rank_verse.Base.{
  ℕ, ◌≡◌, ◌≢◌, refl, sym, ap, ◌∙◌, true, false, List, [], ◌∷◌, ◌++◌, arith, ◌==◌, if◌then◌else◌,
  All, Bool-cases, inl, inr, ==_iff,
}
use mathlib.Core.List.{append_assoc, append-nil}
use rank_verse.Base.Text.{Text, trim}
use rank_verse.WatchCsv.{scan, split_csv_line}

-- The text of a quoted field: its quotes are doubled.
unfoldable pub escape : Text → Text
escape [] = []
escape (c ∷ s) = let rest = escape s in if c == b'"' then b'"' ∷ b'"' ∷ rest else c ∷ rest

-- A field is written in quotes, or bare.
pub data Field : Type 0 where
  quoted bare : Text → Field

abbrev pub value : Field → Text
value (quoted s) = s
value (bare s) = s

abbrev pub write : Field → Text
write (quoted s) = b'"' ∷ escape s ++ b'"' ∷ []
write (bare s) = s

-- A bare field holds no quote and no comma.
abbrev pub IsBare : Text → Type 0
IsBare s = All (λ (c : ℕ). (c ≢ b'"') × (c ≢ b',')) s

abbrev pub IsWritable : Field → Type 0
IsWritable (quoted s) = Unit
IsWritable (bare s) = IsBare s

unfoldable pub write_line : Field → List Field → Text
write_line f [] = write f
write_line f (g ∷ fs) = write f ++ b',' ∷ write_line g fs

-- What may follow a field.
abbrev Follows : Text → Type 0
Follows [] = Unit
Follows (c ∷ s) = c ≢ b'"'

scan-close : (cur rest : Text) → Follows rest → scan true cur (b'"' ∷ rest) ≡ scan false cur rest
unfolding scan
scan-close cur [] h = refl
scan-close cur (d ∷ rest) h = ground arith

scan-quote : (cur t : Text) → scan true cur (b'"' ∷ b'"' ∷ t) ≡ scan true (cur ++ b'"' ∷ []) t
unfolding scan
scan-quote cur t = refl

scan-longer :
    (cur : Text) (c : ℕ) (t : Text)
    → (c == b'"') ≡ false
    → t ≢ []
    → scan true cur (c ∷ t) ≡ scan true (cur ++ c ∷ []) t
unfolding scan
scan-longer cur c [] e h = absurd (h refl)
scan-longer cur c (d ∷ t) e h = rw e

append-ne-nil : (s : Text) (c : ℕ) (t : Text) → s ++ c ∷ t ≢ []
append-ne-nil [] c t = λ e. cc
append-ne-nil (d ∷ s) c t = λ e. cc

scan-escape :
    (cur s rest : Text)
    → Follows rest
    → scan true cur (escape s ++ b'"' ∷ rest) ≡ scan false (cur ++ s) rest
unfolding escape
scan-escape cur [] rest h = rw append-nil (scan-close cur rest h)
scan-escape cur (c ∷ s) rest h = elim (Bool-cases (c == b'"')) [
  | inl e ↦ rw e (
      scan-quote cur (escape s ++ b'"' ∷ rest)
      ∙ scan-escape (cur ++ b'"' ∷ []) s rest h
      ∙ rw ((==_iff c b'"').0 e) (ap (λ t. scan false t rest) (append_assoc cur (b'"' ∷ []) s)))
  | inr e ↦ rw e (
      scan-longer cur c (escape s ++ b'"' ∷ rest) e (append-ne-nil (escape s) b'"' rest)
      ∙ scan-escape (cur ++ c ∷ []) s rest h
      ∙ ap (λ t. scan false t rest) (append_assoc cur (c ∷ []) s))
]

scan-bare : (cur s rest : Text) → IsBare s → scan false cur (s ++ rest) ≡ scan false (cur ++ s) rest
unfolding scan
scan-bare cur [] rest h = rw append-nil refl
scan-bare cur (c ∷ s) rest (h, hs) =
    ground (arith, scan-bare (cur ++ c ∷ []) s rest hs, append_assoc cur (c ∷ []) s)

scan-write :
    (f : Field) (rest : Text)
    → IsWritable f
    → Follows rest
    → scan false [] (write f ++ rest) ≡ scan false (value f) rest
unfolding scan
scan-write (quoted s) rest w h =
    ap (scan true []) (append_assoc (escape s) (b'"' ∷ []) rest) ∙ scan-escape [] s rest h
scan-write (bare s) rest w h = scan-bare [] s rest w

-- The values of a line's fields, as the import reads them.
abbrev pub values : List Field → List Text
values [] = []
values (f ∷ fs) = trim (value f) ∷ values fs

-- A line of fields, each in quotes (with any text in it, quotes and commas included) or bare
-- (without either), is split into the fields' values with the white space round them cut off.
pub split_csv_line-write_line :
    (f : Field) (fs : List Field)
    → All IsWritable (f ∷ fs)
    → split_csv_line (write_line f fs) ≡ values (f ∷ fs)
unfolding split_csv_line write_line scan
split_csv_line-write_line f [] w =
    ap (scan false []) (sym (append-nil (write f))) ∙ scan-write f [] w.0 tt
split_csv_line-write_line f (g ∷ fs) w =
    scan-write f (b',' ∷ write_line g fs) w.0 (λ e. omega arith)
    ∙ ap (λ r. trim (value f) ∷ r) (split_csv_line-write_line g fs w.1)
