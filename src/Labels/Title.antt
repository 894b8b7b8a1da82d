-- ===== src/Labels/Title.antt =====
-- frontend/lib/title.ts.
use rank_verse.Base.{Option, none, some, [], ◌∷◌, ◌++◌, if◌then◌else◌}
use rank_verse.Base.Text.{Text, codes, text_eq, trim}

-- An absent and a null `title_fa` are the same here; an empty one is falsy.
unfoldable pub display_title : Text → Option Text → Text
display_title title none = title
display_title title (some []) = title
display_title title (some (c ∷ fa)) = (c ∷ fa) ++ codes " (" ++ title ++ codes ")"

pub record TitleLines : Type 0 where
  pub primary : Text
  pub secondary : Option Text

-- `!fa || fa === entity.title`, of the trimmed Persian title
abbrev split_trimmed : Text → Text → TitleLines
split_trimmed title [] = record { primary = title; secondary = none }
split_trimmed title (c ∷ fa) =
    if text_eq (c ∷ fa) title
    then record { primary = title; secondary = none }
    else record { primary = c ∷ fa; secondary = some title }

unfoldable pub split_title : Text → Option Text → TitleLines
split_title title none = record { primary = title; secondary = none }
split_title title (some fa) = split_trimmed title (trim fa)
