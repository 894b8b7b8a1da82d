-- ===== src/Tournament/Tests.antt =====
-- The battles' labels and calls at concrete inputs.
use rank_verse.Base.{List, [], ◌∷◌, none, String}
use rank_verse.Tournament.Wizard.{Entity, publish}
use rank_verse.Tournament.Wizard.Ready.{
  Deed, choose_size, save, add_one, add_all, remove_one, run, IsLineup, run-IsLineup,
}
use rank_verse.Base.{◌≡◌, refl, some}
use rank_verse.Base.Text.{codes}
use rank_verse.Tournament.Labels.{remaining, hours, round_label}

two_hours : remaining 7500000 0 ≡ some (hours 2 5)
unfolding remaining
two_hours = refl

final : round_label 4 4 ≡ codes "\u{641}\u{6cc}\u{646}\u{627}\u{644}"
unfolding round_label
final = refl

abbrev a_film : String → Entity
a_film id = record {
  id = id;
  slug = id;
  entity_type = "movie";
  title = id;
  title_fa = none;
  poster_url = none;
}

abbrev four : List Entity
four = a_film "b" ∷ a_film "c" ∷ a_film "d" ∷ a_film "e" ∷ []

abbrev deeds : List Deed
deeds =
    choose_size 4
    ∷ save "a-battle"
    ∷ add_one (a_film "a")
    ∷ add_all four
    ∷ remove_one "b"
    ∷ add_one (a_film "e")
    ∷ []

run-IsLineup_example : IsLineup 4 ("a" ∷ "c" ∷ "d" ∷ "e" ∷ [])
unfolding run publish
run-IsLineup_example =
    run-IsLineup deeds none ("a" ∷ "c" ∷ "d" ∷ "e" ∷ [])
      (
        tt,
        (
          tt,
          (
            tt,
            (
              ((refl, (refl, (refl, tt))), ((refl, (refl, tt)), ((refl, tt), (tt, tt)))),
              (tt, (tt, tt)),
            ),
          ),
        ),
      )
      refl
