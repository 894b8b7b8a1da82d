-- ===== src/Labels/Tests.antt =====
-- Labels at concrete inputs.
use rank_verse.Labels.Lines.{words_of, label_lines}
use rank_verse.Labels.Lines.Short.{IsShort, label_lines-IsShort}
use rank_verse.Base.{true, false, [], ◌∷◌}
use rank_verse.Base.{◌≡◌, refl, none, some}
use rank_verse.Base.Text.{codes, trim, strip_start, strip_end}
use rank_verse.Labels.Title.{display_title, split_title}
use rank_verse.Labels.Genre.{genre_label}
use rank_verse.Labels.Tier.{contribution_tier}

display_title_both : display_title (codes "Dune") (some (codes "D")) ≡ codes "D (Dune)"
unfolding display_title
display_title_both = refl

split_title_same :
    split_title (codes "Dune") (some (codes " Dune "))
    ≡ record { primary = codes "Dune"; secondary = none }
unfolding split_title trim strip_start strip_end
split_title_same = refl

genre_label_unknown : genre_label (codes " Film  Noir! ") ≡ codes "Film Noir"
unfolding genre_label trim strip_start strip_end
genre_label_unknown = refl

-- 60 and a half points.
a_tier : (contribution_tier 121).level ≡ 2
unfolding contribution_tier
a_tier = refl

a_person :
    label_lines (codes "Francis Ford Coppola") true 10 ≡ codes "Francis" ∷ codes "Ford Coppola" ∷ []
unfolding label_lines
a_person = refl

label_lines-IsShort_example :
    IsShort
      (words_of (codes "The Lord of the Rings"))
      (label_lines (codes "The Lord of the Rings") false 8)
label_lines-IsShort_example = label_lines-IsShort (codes "The Lord of the Rings") 8
