-- ===== src/Account/Marks/Laws.antt =====
-- What the toggled marks show against what the server holds
-- (frontend/contexts/FavoritesContext.tsx, frontend/contexts/WatchLaterContext.tsx).
use rank_verse.Base.{
  Option-cases, ℕ, zero, suc, Bool-cases, inl, inr, eq_iff, true, false, arith, ap, ◌≡◌, Bool, not,
  String, Option, none, some, List, [], ◌∷◌, if◌then◌else◌, str_eq,
}
use rank_verse.Account.Marks.{
  put, Flight, Marks, do_toggle, settle, nth, without, answer, Event, click, answered, step, Flight,
}

-- The toggle of this id that is on its way, if any: the newest.
abbrev pub flying : String → List Flight → Option Flight
flying id [] = none
flying id (f ∷ fs) = if str_eq f.id id then some f else flying id fs

-- An id that is not in flight is shown as the server holds it; one in flight is shown the other way
-- round, and its flight remembers how the server holds it.
abbrev Right : Option Flight → Bool → Bool → Type 0
Right none shown server = shown ≡ server
Right (some f) shown server = (f.was ≡ server) × (shown ≡ not server)

-- No two flights are of one id.
abbrev pub Distinct : List Flight → Type 0
Distinct [] = Unit
Distinct (f ∷ fs) = (flying f.id fs ≡ none) × Distinct fs

flying-nth :
    (i : ℕ) (fs : List Flight) (f : Flight)
    → nth i fs ≡ some f
    → Distinct fs
    → flying f.id fs ≡ some f
flying-nth i [] f e d = cc
flying-nth zero (g ∷ fs) f e d = ground (arith, eq_iff g.id f.id)
flying-nth (suc i) (g ∷ fs) f e d = ground (arith, eq_iff g.id f.id, flying-nth i fs f e d.1, d.0)

flying-without :
    (i : ℕ) (fs : List Flight) (f : Flight) (id : String)
    → nth i fs ≡ some f
    → Distinct fs
    → flying id (without i fs) ≡ (if str_eq f.id id then none else flying id fs)
flying-without i [] f id e d = cc
flying-without zero (g ∷ fs) f id e d = ground (arith, eq_iff g.id id, eq_iff f.id id, d.0)
flying-without (suc i) (g ∷ fs) f id e d = ground (
  arith,
  eq_iff g.id id,
  eq_iff f.id id,
  eq_iff g.id f.id,
  flying-without i fs f id e d.1,
  flying-nth i fs f e d.1,
  d.0,
)

Distinct-without :
    (i : ℕ) (fs : List Flight) (f : Flight)
    → nth i fs ≡ some f
    → Distinct fs
    → Distinct (without i fs)
Distinct-without i [] f e d = tt
Distinct-without zero (g ∷ fs) f e d = d.1
Distinct-without (suc i) (g ∷ fs) f e d =
    (ground (arith, flying-without i fs f g.id e d.1, d.0), Distinct-without i fs f e d.1)

pub record IsAligned (m : Marks) : Type 0 where
  pub distinct : Distinct m.in_flight
  pub right : (id : String) → Right (flying id m.in_flight) (m.shown id) (m.server id)

-- A click on an id while none of its toggles is on its way.
abbrev pub IsCalm : Event → Marks → Type 0
IsCalm (click token id) m = flying id m.in_flight ≡ none
IsCalm (answered i succeeded) m = Unit

-- What holds of one id, on both sides of a click and of an answer.
click-Right :
    (id k : String) (m : Marks)
    → flying id m.in_flight ≡ none
    → Right (flying id m.in_flight) (m.shown id) (m.server id)
    → Right (flying k m.in_flight) (m.shown k) (m.server k)
    → Right
        (if str_eq id k then some record { id = id; was = m.shown id } else flying k m.in_flight)
        (put id (not (m.shown id)) m.shown k)
        (m.server k)
click-Right id k m c h r = elim (Bool-cases (str_eq id k)) [
  | inl b ↦
      let rest : m.shown id ≡ m.server id = rw c at h in
      let same : id ≡ k = (eq_iff id k).0 b in rw (b, ← same) (rest, ap not rest)
  | inr b ↦ rw b r
]

click-IsAligned :
    (token : Option String) (id : String) (m : Marks)
    → flying id m.in_flight ≡ none
    → IsAligned m
    → IsAligned (do_toggle token id m)
unfolding do_toggle
click-IsAligned none id m c h = h
click-IsAligned (some token) id m c h = elim (Bool-cases (str_eq token "")) [
  | inl b ↦ rw b h
  | inr b ↦ rw b (record {
    distinct = (c, h.distinct);
    right = λ k. click-Right id k m c (h.right id) (h.right k);
  })
]

settle-Right :
    (succeeded : Bool) (f : Flight) (k : String) (m : Marks) (o : Option Flight)
    → Right (some f) (m.shown f.id) (m.server f.id)
    → Right o (m.shown k) (m.server k)
    → Right
        (if str_eq f.id k then none else o)
        ((settle succeeded f m).shown k)
        ((settle succeeded f m).server k)
settle-Right true f k m o h r = elim (Bool-cases (str_eq f.id k)) [
  | inl b ↦ let same : f.id ≡ k = (eq_iff f.id k).0 b in rw (b, ← same) h.1
  | inr b ↦ rw b r
]
settle-Right false f k m o h r = elim (Bool-cases (str_eq f.id k)) [
  | inl b ↦ let same : f.id ≡ k = (eq_iff f.id k).0 b in rw (b, ← same) h.0
  | inr b ↦ rw b r
]

flight-Right :
    (i : ℕ) (f : Flight) (m : Marks)
    → nth i m.in_flight ≡ some f
    → IsAligned m
    → Right (some f) (m.shown f.id) (m.server f.id)
flight-Right i f m e h = rw (flying-nth i m.in_flight f e h.distinct) at (h.right f.id)

settle-IsAligned :
    (i : ℕ) (succeeded : Bool) (f : Flight) (m : Marks)
    → nth i m.in_flight ≡ some f
    → IsAligned m
    → IsAligned (settle succeeded f (record m { in_flight = without i m.in_flight }))
settle-IsAligned i true f m e h = record {
  distinct = Distinct-without i m.in_flight f e h.distinct;
  right = λ k.
      rw (flying-without i m.in_flight f k e h.distinct)
        (settle-Right true f k m _ (flight-Right i f m e h) (h.right k));
}
settle-IsAligned i false f m e h = record {
  distinct = Distinct-without i m.in_flight f e h.distinct;
  right = λ k.
      rw (flying-without i m.in_flight f k e h.distinct)
        (settle-Right false f k m _ (flight-Right i f m e h) (h.right k));
}

step-IsAligned : (e : Event) (m : Marks) → IsCalm e m → IsAligned m → IsAligned (step e m)
unfolding step answer
step-IsAligned (click token id) m c h = click-IsAligned token id m c h
step-IsAligned (answered i succeeded) m c h = elim (Option-cases (nth i m.in_flight)) [
  | inl e ↦ rw e h
  | inr (f, e) ↦ rw e (settle-IsAligned i succeeded f m e h)
]

-- A course of events, each calm where it happens.
pub data Course : Marks → Marks → Type 0 where
  here : {m : Marks} → Course m m
  next : {m m' : Marks} (e : Event) → IsCalm e m → Course (step e m) m' → Course m m'

-- As long as no id is clicked while a toggle of it is on its way, then whatever the order of clicks and
-- answers and whichever toggles the server refuses (leaving its set as it is): from marks that agree
-- with the server, the marks of every id agree with it whenever none of its toggles is on its way, and
-- one that is shows the opposite of what the server holds.
pub Course-IsAligned : {m m' : Marks} → Course m m' → IsAligned m → IsAligned m'
Course-IsAligned here h = h
Course-IsAligned (next {m} e c course) h = Course-IsAligned course (step-IsAligned e m c h)
