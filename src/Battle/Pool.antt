-- ===== src/Battle/Pool.antt =====
-- frontend/components/tournament/PoolView.tsx: the tally that a pool battle keeps of the viewer's
-- run (`onPick`) and the standings that it makes of it (`handleDone`).
pub mod Totals
pub mod Standings
use rank_verse.Base.{
  ℕ, ◌+◌, String, Bool, Option, none, some, List, [], ◌∷◌, str_eq, compare, Ordering, or_else,
  not_after, if◌then◌else◌,
}
use rank_verse.Base.Assoc
use rank_verse.Base.Assoc.{Assoc}
use rank_verse.Base.Sort
use rank_verse.Battle.WinnerStays.{Side, left, right}

-- frontend/lib/tournament.ts: the fields that the standings show
pub record TournamentEntity : Type 0 where
  pub id : String
  pub slug : String
  pub entity_type : String
  pub title : String
  pub title_fa : Option String
  pub poster_url : Option String
  pub year : Option ℕ
  pub seed : Option ℕ

pub record Score : Type 0 where
  pub wins : ℕ
  pub out : ℕ

pub record RunRow : Type 0 where
  pub entity : TournamentEntity
  pub wins : ℕ
  pub out : ℕ

pub record Tally : Type 0 where
  pub scores : Assoc Score
  pub pick_count : ℕ

abbrev pub empty : Tally
empty = record { scores = []; pick_count = 0 }

-- `?? { wins: 0, out: 0 }`
abbrev pub or_zero : Option Score → Score
or_zero none = record { wins = 0; out = 0 }
or_zero (some s) = s

unfoldable pub add_win : String → Assoc Score → Assoc Score
add_win won t =
    let w = or_zero (Assoc.get won t) in Assoc.set won (record w { wins = w.wins + 1 }) t

unfoldable pub knock_out : String → ℕ → Assoc Score → Assoc Score
knock_out lost n t = let l = or_zero (Assoc.get lost t) in Assoc.set lost (record l { out = n }) t

abbrev pub won_of : Side → String → String → String
won_of left champion challenger = champion
won_of right champion challenger = challenger

abbrev pub lost_of : Side → String → String → String
lost_of left champion challenger = challenger
lost_of right champion challenger = champion

unfoldable pub on_pick : String → String → Side → Tally → Tally
unfolding add_win knock_out
on_pick champion challenger winner p =
    let n = p.pick_count + 1 in
    record {
      scores =
          knock_out (lost_of winner champion challenger) n
            (add_win (won_of winner champion challenger) p.scores);
      pick_count = n;
    }

-- `new Map(participants.map((p) => [p.id, p]))`
unfoldable pub by_id : List TournamentEntity → Assoc TournamentEntity → Assoc TournamentEntity
by_id [] m = m
by_id (p ∷ ps) m = by_id ps (Assoc.set p.id p m)

-- The rows of the scores whose entry is a participant, in the tally's order.
unfoldable pub gather : Assoc TournamentEntity → Assoc Score → List RunRow
gather m [] = []
gather m ((id, v) ∷ t) =
    let rest = gather m t in
    elim (Assoc.get id m) [
      | none ↦ rest
      | some entity ↦ record { entity = entity; wins = v.wins; out = v.out } ∷ rest
    ]

-- The champion first; then more wins, then knocked out later.
unfoldable pub compare_rows : String → RunRow → RunRow → Ordering
compare_rows champion x y =
    if str_eq x.entity.id champion
    then Ordering.lt
    else if str_eq y.entity.id champion
    then Ordering.gt
    else or_else (compare y.wins x.wins) (compare y.out x.out)

unfoldable pub ahead : String → RunRow → RunRow → Bool
unfolding compare_rows
ahead champion x y = not_after (compare_rows champion x y)

unfoldable pub handle_done : String → List TournamentEntity → Tally → List RunRow
unfolding by_id gather
handle_done champion participants p =
    Sort.sort (ahead champion) (gather (by_id participants []) p.scores)
