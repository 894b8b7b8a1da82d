-- ===== src/Battle/Pool/Standings.antt =====
-- The standings of a viewer's run (frontend/components/tournament/PoolView.tsx, `handleDone`).
use mathlib.Core.List.{Perm}
use rank_verse.Base.{
  ◌≡◌, refl, String, Bool, true, false, List, [], ◌∷◌, ◌||◌, arith, str_eq, All, ap, ◌∙◌,
}
use rank_verse.Base.Sort
use rank_verse.Base.Sort.{IsSorted, IsPreorder}
use rank_verse.Battle.Pool.{TournamentEntity, RunRow, Tally, by_id, gather, ahead, handle_done}

ahead-total :
    (champion : String) (x y : RunRow) → ahead champion x y ≡ false → ahead champion y x ≡ true
unfolding ahead
ahead-total champion x y h = ground arith

ahead_trans :
    (champion : String) (x y z : RunRow)
    → ahead champion x y ≡ true
    → ahead champion y z ≡ true
    → ahead champion x z ≡ true
unfolding ahead
ahead_trans champion x y z h k = ground arith

ahead-IsPreorder : (champion : String) → IsPreorder (ahead champion)
ahead-IsPreorder champion = record { total = ahead-total champion; trans = ahead_trans champion }

-- The standings are the gathered rows, none lost or repeated, ordered by the comparator.
handle_done-IsSorted :
    (champion : String) (participants : List TournamentEntity) (p : Tally)
    → let rows = handle_done champion participants p in
      IsSorted (ahead champion) rows × Perm rows (gather (by_id participants []) p.scores)
unfolding handle_done
handle_done-IsSorted champion participants p = (
  Sort.sort-IsSorted (ahead champion) (ahead-IsPreorder champion) _,
  Sort.sort-perm (ahead champion) _,
)

-- A row of the champion is among these.
abbrev pub has : String → List RunRow → Bool
has champion [] = false
has champion (r ∷ rows) = str_eq r.entity.id champion || has champion rows

abbrev pub heads : String → List RunRow → Bool
heads champion [] = false
heads champion (r ∷ rows) = str_eq r.entity.id champion

has-insert :
    (champion : String) (x : RunRow) (rows : List RunRow)
    → has champion (Sort.insert (ahead champion) x rows)
      ≡ (str_eq x.entity.id champion || has champion rows)
unfolding Sort.insert
has-insert champion x [] = refl
has-insert champion x (r ∷ rows) = ground (arith, has-insert champion x rows)

has-sort :
    (champion : String) (rows : List RunRow)
    → has champion (Sort.sort (ahead champion) rows) ≡ has champion rows
unfolding Sort.sort
has-sort champion [] = refl
has-sort champion (r ∷ rows) =
    has-insert champion r (Sort.sort (ahead champion) rows)
    ∙ ap (λ b. str_eq r.entity.id champion || b) (has-sort champion rows)

-- A row that is not the champion's stands ahead of no row of the champion.
not-has_behind :
    (champion : String) (x : RunRow) (rows : List RunRow)
    → str_eq x.entity.id champion ≡ false
    → All (λ y. ahead champion x y ≡ true) rows
    → has champion rows ≡ false
unfolding ahead
not-has_behind champion x [] e h = refl
not-has_behind champion x (r ∷ rows) e h = ground (arith, not-has_behind champion x rows e h.1)

IsSorted-heads :
    (champion : String) (rows : List RunRow)
    → IsSorted (ahead champion) rows
    → has champion rows ≡ true
    → heads champion rows ≡ true
IsSorted-heads champion [] h e = e
IsSorted-heads champion (r ∷ rows) h e = ground (arith, not-has_behind champion r rows)

-- If the run's champion has a row, the standings open with it.
handle_done-heads :
    (champion : String) (participants : List TournamentEntity) (p : Tally)
    → has champion (gather (by_id participants []) p.scores) ≡ true
    → heads champion (handle_done champion participants p) ≡ true
unfolding handle_done
handle_done-heads champion participants p h =
    IsSorted-heads champion _ (handle_done-IsSorted champion participants p).0
      (has-sort champion _ ∙ h)
