-- ===== src/Images/Flights.antt =====
-- frontend/lib/image-proxy.ts, `getImage`: callers of one image share one load, while it is on its way.
-- A caller is a number; a load's outcome is opaque.
pub mod Laws
use rank_verse.Base.{
  ℕ, zero, suc, ◌+◌, ◌≡◌, ◌==◌, refl, sym, Bool, true, false, ◌||◌, List, [], ◌∷◌, ◌++◌, length,
  if◌then◌else◌, arith, Bool-cases, inl, inr,
}
use rank_verse.Base.Text.{Text, text_eq, text_eq_iff}

-- An entry of `inFlight`, with the callers that hold its promise.
pub record Flight : Type 0 where
  pub image_path : Text
  pub callers : List ℕ

pub record Flights (A : Type 0) : Type 0 where
  pub in_flight : List Flight
  pub answered : List (ℕ × A)

-- `inFlight.get`, and `inFlight.set` where there is none.
unfoldable pub join_flight : ℕ → Text → List Flight → List Flight
join_flight caller image_path [] = record { image_path = image_path; callers = caller ∷ [] } ∷ []
join_flight caller image_path (f ∷ fs) =
    let rest = join_flight caller image_path fs in
    if text_eq f.image_path image_path
    then record f { callers = caller ∷ f.callers } ∷ fs
    else f ∷ rest

pub data Event (A : Type 0) : Type 0 where
  ask : ℕ → Text → Event A
  settled : ℕ → A → Event A

module _ {A : Type 0} where
  abbrev pub answer_all : A → List ℕ → List (ℕ × A)
  answer_all outcome [] = []
  answer_all outcome (caller ∷ rest) = (caller, outcome) ∷ answer_all outcome rest

  -- The load at a place settles: its entry is deleted, and all its callers get the outcome.
  unfoldable pub land : ℕ → A → List Flight → List Flight × List (ℕ × A)
  land i outcome [] = ([], [])
  land zero outcome (f ∷ fs) = (fs, answer_all outcome f.callers)
  land (suc i) outcome (f ∷ fs) = let r = land i outcome fs in (f ∷ r.0, r.1)

  unfoldable pub step : Event A → Flights A → Flights A
  unfolding join_flight land
  step (ask caller image_path) s = record s {
    in_flight = join_flight caller image_path s.in_flight;
  }
  step (settled i outcome) s =
      let r = land i outcome s.in_flight in record { in_flight = r.0; answered = r.1 ++ s.answered }

  unfoldable pub run : List (Event A) → Flights A → Flights A
  unfolding step
  run [] s = s
  run (e ∷ es) s = run es (step e s)

  abbrev pub no_flights : Flights A
  no_flights = record { in_flight = []; answered = [] }
