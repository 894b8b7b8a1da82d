-- ===== src/Images/Names.antt =====
-- The names under which images are kept (frontend/lib/image-proxy.ts, `cacheFile`).
use rank_verse.Base.{
  ℕ, ◌≡◌, ◌==◌, ==_iff, refl, sym, ap, ◌∙◌, Bool, true, false, not, ◌&&◌, Option, none, some, [],
  ◌∷◌, if◌then◌else◌, arith, Bool-cases, inl, inr,
}
use rank_verse.Base.Text.{Text, codes, text_eq, text_eq_iff}
use rank_verse.Labels.Digits.{is_digit}
use rank_verse.Images.{
  push, all_units, cut, is_size, is_sized, is_image_path, replace_first, cache_file,
}

-- No underscore stands before the first slash.
abbrev plain_before : Text → Bool
plain_before [] = true
plain_before (c ∷ s) =
    let rest = plain_before s in if c == b'/' then true else not (c == b'_') && rest

and_true : (a b : Bool) → (a && b) ≡ true → (a ≡ true) × (b ≡ true)
and_true a b h = ground arith

restore :
    (s : Text) → plain_before s ≡ true → replace_first b'_' b'/' (replace_first b'/' b'_' s) ≡ s
unfolding replace_first
restore [] h = refl
restore (c ∷ s) h = elim (Bool-cases (c == b'/')) [
  | inl e ↦ let same : c ≡ b'/' = (==_iff c b'/').0 e in rw (e, same) refl
  | inr e ↦
      let (one, more) = and_true (not (c == b'_')) (plain_before s) (rw e at h) in
      let other : (c == b'_') ≡ false = ground arith in rw (e, other) (ap (c ∷◌) (restore s more))
]

abbrev plain : ℕ → Bool
plain c = not (c == b'_')

digits-plain : (s : Text) → all_units is_digit s ≡ true → all_units plain s ≡ true
digits-plain [] h = refl
digits-plain (c ∷ s) h = ground (arith, digits-plain s)

is_size-plain : (s : Text) → is_size s ≡ true → all_units plain s ≡ true
is_size-plain [] h = refl
is_size-plain (c ∷ s) h = elim (Bool-cases (text_eq (c ∷ s) (codes "original"))) [
  | inl e ↦ ap (all_units plain) ((text_eq_iff (c ∷ s) (codes "original")).0 e)
  | inr e ↦ ground (arith, digits-plain s)
]

abbrev sized_plain : Option (Text × Text) → Bool
sized_plain none = false
sized_plain (some (size, file)) = all_units plain size

sized_plain-push :
    (c : ℕ) (o : Option (Text × Text)) → sized_plain (push c o) ≡ (plain c && sized_plain o)
sized_plain-push c none = ground arith
sized_plain-push c (some (size, file)) = refl

cut-plain_before : (s : Text) → sized_plain (cut b'/' s) ≡ true → plain_before s ≡ true
unfolding cut
cut-plain_before [] h = refl
cut-plain_before (c ∷ s) h = elim (Bool-cases (c == b'/')) [
  | inl e ↦ rw e refl
  | inr e ↦
      let both : (plain c && sized_plain (cut b'/' s)) ≡ true =
        sym (sized_plain-push c (cut b'/' s)) ∙ rw e at h in
      let (one, more) = and_true (plain c) (sized_plain (cut b'/' s)) both in
      rw (e, one, cut-plain_before s more) refl
]

is_sized-plain : (o : Option (Text × Text)) → is_sized o ≡ true → sized_plain o ≡ true
is_sized-plain none h = h
is_sized-plain (some (size, file)) h = is_size-plain size (and_true (is_size size) _ h).0

image_path-restore :
    (s : Text) → is_image_path s ≡ true → replace_first b'_' b'/' (cache_file s) ≡ s
unfolding is_image_path cache_file
image_path-restore s h = restore s (cut-plain_before s (is_sized-plain (cut b'/' s) h))

-- No two images share a file of the cache.
cache_file-injective :
    (p q : Text)
    → is_image_path p ≡ true
    → is_image_path q ≡ true
    → cache_file p ≡ cache_file q
    → p ≡ q
cache_file-injective p q hp hq e =
    sym (image_path-restore p hp) ∙ ap (replace_first b'_' b'/') e ∙ image_path-restore q hq
