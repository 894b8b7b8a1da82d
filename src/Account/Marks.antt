-- ===== src/Account/Marks.antt =====
-- frontend/contexts/FavoritesContext.tsx and frontend/contexts/WatchLaterContext.tsx: marks that a
-- viewer toggles, shown at once and taken back where the server refuses. Both are one machine over
-- the marked ids; `server` is the set that the backend holds, which a toggle that succeeds flips.
pub mod Laws
use rank_verse.Base.{
  ℕ, zero, suc, Bool, true, false, not, String, Option, none, some, List, [], ◌∷◌, if◌then◌else◌,
  str_eq,
}

-- A JavaScript `Set` of ids.
abbrev pub IdSet : Type 0
IdSet = String → Bool

abbrev pub empty : IdSet
empty id = false

-- `add` and `delete`
abbrev pub put : String → Bool → IdSet → IdSet
put id present ids k = if str_eq id k then present else ids k

abbrev pub of_list : List String → IdSet
of_list [] = empty
of_list (id ∷ ids) = put id true (of_list ids)

-- A toggle on its way: the id and whether it was marked at the click.
pub record Flight : Type 0 where
  pub id : String
  pub was : Bool

pub record Marks : Type 0 where
  pub shown : IdSet
  pub server : IdSet
  pub in_flight : List Flight

-- `doToggle` up to its request; without a token nothing happens.
unfoldable pub do_toggle : Option String → String → Marks → Marks
do_toggle none id m = m
do_toggle (some token) id m =
    if str_eq token ""
    then m
    else let was = m.shown id in
      record m {
        shown = put id (not was) m.shown;
        in_flight = record { id = id; was = was } ∷ m.in_flight;
      }

-- The server's answer to a toggle: it flipped the mark, or it refused and the mark is put back.
abbrev pub settle : Bool → Flight → Marks → Marks
settle true f m = record m { server = put f.id (not (m.server f.id)) m.server }
settle false f m = record m { shown = put f.id f.was m.shown }

abbrev pub nth : ℕ → List Flight → Option Flight
nth i [] = none
nth zero (f ∷ fs) = some f
nth (suc i) (f ∷ fs) = nth i fs

abbrev pub without : ℕ → List Flight → List Flight
without i [] = []
without zero (f ∷ fs) = fs
without (suc i) (f ∷ fs) = f ∷ without i fs

abbrev settle_nth : Option Flight → ℕ → Bool → Marks → Marks
settle_nth none i succeeded m = m
settle_nth (some f) i succeeded m =
    settle succeeded f (record m { in_flight = without i m.in_flight })

unfoldable pub answer : ℕ → Bool → Marks → Marks
answer i succeeded m = settle_nth (nth i m.in_flight) i succeeded m

-- The effect of a new token: the marks are read, or, signed out, none are shown.
unfoldable pub on_token : Option (List String) → Marks → Marks
on_token none m = record m { shown = empty }
on_token (some ids) m = record m { shown = of_list ids }

-- FavoritesContext's entities; the other context passes the id itself.
pub record FavoritableEntity : Type 0 where
  pub id : String
  pub slug : String
  pub entity_type : String

unfoldable pub toggle_favorite : Option String → FavoritableEntity → Marks → Marks
unfolding do_toggle
toggle_favorite token entity m = do_toggle token entity.id m

unfoldable pub toggle_watch_later : Option String → String → Marks → Marks
unfolding do_toggle
toggle_watch_later token entity_id m = do_toggle token entity_id m

pub data Event : Type 0 where
  click : Option String → String → Event
  answered : ℕ → Bool → Event

unfoldable pub step : Event → Marks → Marks
unfolding do_toggle answer
step (click token id) m = do_toggle token id m
step (answered i succeeded) m = answer i succeeded m
