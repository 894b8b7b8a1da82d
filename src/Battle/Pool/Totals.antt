-- ===== src/Battle/Pool/Totals.antt =====
-- What the tally of a pool battle counts (frontend/components/tournament/PoolView.tsx, `onPick`).
use rank_verse.Base.{
  ℕ, ◌+◌, ◌≡◌, ◌≢◌, refl, sym, String, some, List, [], ◌∷◌, arith, str_eq, eq_iff, length,
  if◌then◌else◌,
}
use rank_verse.Base.Assoc
use rank_verse.Base.Assoc.{Assoc}
use rank_verse.Battle.WinnerStays.{Side, left, right}
use rank_verse.Battle.Pool.{
  Score, Tally, empty, or_zero, add_win, knock_out, won_of, lost_of, on_pick,
}

abbrev pub sum_wins : Assoc Score → ℕ
sum_wins [] = 0
sum_wins ((_, s) ∷ t) = s.wins + sum_wins t

sum_wins-set :
    (k : String) (v : Score) (t : Assoc Score)
    → sum_wins (Assoc.set k v t) + (or_zero (Assoc.get k t)).wins ≡ sum_wins t + v.wins
unfolding Assoc.set Assoc.get
sum_wins-set k v [] = omega arith
sum_wins-set k v ((j, w) ∷ t) = ground (arith, sum_wins-set k v t)

sum_wins-on_pick :
    (champion challenger : String) (winner : Side) (p : Tally)
    → sum_wins (on_pick champion challenger winner p).scores ≡ sum_wins p.scores + 1
unfolding on_pick
sum_wins-on_pick champion challenger winner p =
    let won = won_of winner champion challenger in
    let lost = lost_of winner champion challenger in
    let w = or_zero (Assoc.get won p.scores) in
    let t = Assoc.set won (record w { wins = w.wins + 1 }) p.scores in
    let l = or_zero (Assoc.get lost t) in
    omega (
      arith,
      sum_wins-set won (record w { wins = w.wins + 1 }) p.scores,
      sum_wins-set lost (record l { out = p.pick_count + 1 }) t,
    )

on_pick-pick_count :
    (champion challenger : String) (winner : Side) (p : Tally)
    → (on_pick champion challenger winner p).pick_count ≡ p.pick_count + 1
unfolding on_pick
on_pick-pick_count champion challenger winner p = refl

-- The calls of `onPick`, one for each pick.
unfoldable pub tally_all : List (String × String × Side) → Tally → Tally
tally_all [] p = p
tally_all ((champion, challenger, winner) ∷ picks) p =
    tally_all picks (on_pick champion challenger winner p)

tally_all-sum :
    (picks : List (String × String × Side)) (p : Tally)
    → (sum_wins (tally_all picks p).scores ≡ sum_wins p.scores + length picks)
      × ((tally_all picks p).pick_count ≡ p.pick_count + length picks)
unfolding tally_all
tally_all-sum [] p = omega arith
tally_all-sum ((a, b, w) ∷ picks) p = omega (
  arith,
  tally_all-sum picks (on_pick a b w p),
  sum_wins-on_pick a b w p,
  on_pick-pick_count a b w p,
)

-- After any picks of a run the entries' wins add up to the number of picks.
tally_all-sum_wins :
    (picks : List (String × String × Side))
    → let p = tally_all picks empty in
      (sum_wins p.scores ≡ length picks) × (p.pick_count ≡ length picks)
tally_all-sum_wins picks = omega (arith, tally_all-sum picks empty)

get-scores :
    (won lost : String) (n : ℕ) (t : Assoc Score) (j : String)
    → won ≢ lost
    → let old = or_zero (Assoc.get j t) in
      Assoc.get j (knock_out lost n (add_win won t)) ≡ (
        if str_eq won j
        then some (record old { wins = old.wins + 1 })
        else if str_eq lost j
        then some (record old { out = n })
        else Assoc.get j t)
unfolding add_win knock_out
get-scores won lost n t j d =
    let w = or_zero (Assoc.get won t) in
    let v : Score = record w { wins = w.wins + 1 } in
    let l = or_zero (Assoc.get lost (Assoc.set won v t)) in
    ground (
      arith,
      Assoc.get-set lost j (record l { out = n }) (Assoc.set won v t),
      Assoc.get-set won j v t,
      Assoc.get-set won lost v t,
      eq_iff won j,
      eq_iff lost j,
      eq_iff won lost,
    )

-- A pick between two entries gives its winner one more win and stamps the loser with the pick's
-- number; the winner's stamp, the loser's wins and every other entry stay as they were.
get-on_pick :
    (champion challenger : String) (winner : Side) (p : Tally) (j : String)
    → champion ≢ challenger
    → let t = (on_pick champion challenger winner p).scores in
      let old = or_zero (Assoc.get j p.scores) in
      Assoc.get j t ≡ (
        if str_eq (won_of winner champion challenger) j
        then some (record old { wins = old.wins + 1 })
        else if str_eq (lost_of winner champion challenger) j
        then some (record old { out = p.pick_count + 1 })
        else Assoc.get j p.scores)
unfolding on_pick
get-on_pick champion challenger left p j d =
    get-scores champion challenger (p.pick_count + 1) p.scores j d
get-on_pick champion challenger right p j d =
    get-scores challenger champion (p.pick_count + 1) p.scores j (λ e. d (sym e))
