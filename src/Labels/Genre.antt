-- ===== src/Labels/Genre.antt =====
-- frontend/lib/genre-labels.ts. The table is read by its own keys only.
use rank_verse.Base.{
  ℕ, ◌-◌, String, Bool, true, false, ◌&&◌, ◌||◌, List, [], ◌∷◌, map, leb, ◌==◌, if◌then◌else◌,
}
use rank_verse.Base.Text.{
  Text, codes, text_eq, trim, to_lower, strip_start, strip_end, split_on, join,
}

abbrev pub genre_labels : List (String × String)
genre_labels =
    ("action", "\u{627}\u{6a9}\u{634}\u{646}")
    ∷ ("adventure", "\u{645}\u{627}\u{62c}\u{631}\u{627}\u{62c}\u{648}\u{6cc}\u{6cc}")
    ∷ ("animation", "\u{627}\u{646}\u{6cc}\u{645}\u{6cc}\u{634}\u{646}")
    ∷ ("biography", "\u{628}\u{6cc}\u{648}\u{6af}\u{631}\u{627}\u{641}\u{6cc}")
    ∷ ("comedy", "\u{6a9}\u{645}\u{62f}\u{6cc}")
    ∷ ("crime", "\u{62c}\u{646}\u{627}\u{6cc}\u{6cc}")
    ∷ ("documentary", "\u{645}\u{633}\u{62a}\u{646}\u{62f}")
    ∷ ("drama", "\u{62f}\u{631}\u{627}\u{645}")
    ∷ ("family", "\u{62e}\u{627}\u{646}\u{648}\u{627}\u{62f}\u{6af}\u{6cc}")
    ∷ ("fantasy", "\u{641}\u{627}\u{646}\u{62a}\u{632}\u{6cc}")
    ∷ ("history", "\u{62a}\u{627}\u{631}\u{6cc}\u{62e}\u{6cc}")
    ∷ ("horror", "\u{62a}\u{631}\u{633}\u{646}\u{627}\u{6a9}")
    ∷ ("music", "\u{645}\u{648}\u{633}\u{6cc}\u{642}\u{6cc}")
    ∷ ("mystery", "\u{645}\u{639}\u{645}\u{627}\u{6cc}\u{6cc}")
    ∷ ("romance", "\u{639}\u{627}\u{634}\u{642}\u{627}\u{646}\u{647}")
    ∷ ("science-fiction", "\u{639}\u{644}\u{645}\u{6cc}-\u{62a}\u{62e}\u{6cc}\u{644}\u{6cc}")
    ∷ ("sci-fi", "\u{639}\u{644}\u{645}\u{6cc}-\u{62a}\u{62e}\u{6cc}\u{644}\u{6cc}")
    ∷ (
      "tv-movie",
      "\u{641}\u{6cc}\u{644}\u{645} \u{62a}\u{644}\u{648}\u{6cc}\u{632}\u{6cc}\u{648}\u{646}\u{6cc}",
    )
    ∷ ("thriller", "\u{67e}\u{631}\u{62a}\u{639}\u{644}\u{6cc}\u{642}")
    ∷ ("war", "\u{62c}\u{646}\u{6af}\u{6cc}")
    ∷ ("western", "\u{648}\u{633}\u{62a}\u{631}\u{646}")
    ∷ ("kids", "\u{6a9}\u{648}\u{62f}\u{6a9}")
    ∷ ("news", "\u{62e}\u{628}\u{631}\u{6cc}")
    ∷ ("reality", "\u{631}\u{626}\u{627}\u{644}\u{6cc}\u{62a}\u{6cc}")
    ∷ (
      "soap",
      "\u{62f}\u{631}\u{627}\u{645} \u{62e}\u{627}\u{646}\u{648}\u{627}\u{62f}\u{6af}\u{6cc}",
    )
    ∷ ("talk", "\u{6af}\u{641}\u{62a}\u{6af}\u{648}")
    ∷ []

-- `[a-z0-9]`
abbrev pub is_slug_unit : ℕ → Bool
is_slug_unit c = leb b'a' c && leb c b'z' || leb b'0' c && leb c b'9'

-- `replace(/[^a-z0-9]+/g, "-")`: one dash for each gap; the flag says that a gap is under way.
unfoldable pub dash_gaps : Bool → Text → Text
dash_gaps gap [] = []
dash_gaps gap (c ∷ s) =
    let kept = c ∷ dash_gaps false s in
    let skipped = dash_gaps true s in
    if is_slug_unit c then kept else if gap then skipped else b'-' ∷ skipped

abbrev is_dash : ℕ → Bool
is_dash c = c == b'-'

-- `replace(/^-+|-+$/g, "")`
unfoldable pub strip_dashes : Text → Text
unfolding strip_start strip_end
strip_dashes s = strip_end is_dash (strip_start is_dash s)

unfoldable pub to_slug : Text → Text
unfolding to_lower trim dash_gaps strip_dashes
to_slug input = strip_dashes (dash_gaps false (trim (to_lower input)))

-- `word.charAt(0).toUpperCase() + word.slice(1)`, on a word of a slug.
abbrev pub capitalise : Text → Text
capitalise [] = []
capitalise (c ∷ s) = (if leb b'a' c && leb c b'z' then c - 32 else c) ∷ s

unfoldable pub humanize : Text → Text
unfolding split_on join
humanize slug = join (codes " ") (map capitalise (split_on b'-' [] slug))

unfoldable pub label_in : List (String × String) → Text → Text → Text
label_in [] slug fallback = fallback
label_in ((k, v) ∷ rows) slug fallback =
    if text_eq (codes k) slug then codes v else label_in rows slug fallback

unfoldable pub genre_label : Text → Text
unfolding to_slug humanize label_in
genre_label input = let slug = to_slug input in label_in genre_labels slug (humanize slug)
