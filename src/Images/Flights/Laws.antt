-- ===== src/Images/Flights/Laws.antt =====
-- The loads of frontend/lib/image-proxy.ts, `getImage`, in any order of calls and outcomes.
use rank_verse.Base.{
  ℕ, zero, suc, ◌+◌, ◌≡◌, ◌==◌, refl, ◌∙◌, Bool, false, ◌||◌, List, [], ◌∷◌, ◌++◌, if◌then◌else◌,
  arith, Bool-cases, inl, inr,
}
use rank_verse.Base.Text.{Text, text_eq}
use rank_verse.Images.Flights.{
  Flight, Flights, join_flight, Event, ask, settled, answer_all, land, step, run, no_flights,
}

abbrev one_if : Bool → ℕ
one_if b = if b then 1 else 0

-- How often a caller is in a list, and among those that wait.
abbrev among : ℕ → List ℕ → ℕ
among k [] = 0
among k (caller ∷ rest) = one_if (caller == k) + among k rest

abbrev pub waiting : ℕ → List Flight → ℕ
waiting k [] = 0
waiting k (f ∷ fs) = among k f.callers + waiting k fs

abbrev pub is_flying : Text → List Flight → Bool
is_flying image_path [] = false
is_flying image_path (f ∷ fs) = text_eq image_path f.image_path || is_flying image_path fs

-- No two loads on their way are of one image.
abbrev pub Distinct : List Flight → Type 0
Distinct [] = Unit
Distinct (f ∷ fs) = (is_flying f.image_path fs ≡ false) × Distinct fs

waiting-join_flight :
    (k caller : ℕ) (image_path : Text) (fs : List Flight)
    → waiting k (join_flight caller image_path fs) ≡ one_if (caller == k) + waiting k fs
unfolding join_flight
waiting-join_flight k caller image_path [] = omega arith
waiting-join_flight k caller image_path (f ∷ fs) =
    elim (Bool-cases (text_eq f.image_path image_path)) [
      | inl e ↦ rw e (omega arith)
      | inr e ↦ rw e (omega (arith, waiting-join_flight k caller image_path fs))
    ]

is_flying-join_flight :
    (p : Text) (caller : ℕ) (image_path : Text) (fs : List Flight)
    → text_eq p image_path ≡ false
    → is_flying p fs ≡ false
    → is_flying p (join_flight caller image_path fs) ≡ false
unfolding join_flight
is_flying-join_flight p caller image_path [] h n = ground arith
is_flying-join_flight p caller image_path (f ∷ fs) h n =
    elim (Bool-cases (text_eq f.image_path image_path)) [
      | inl e ↦ rw e n
      | inr e ↦ rw e (ground (arith, is_flying-join_flight p caller image_path fs h))
    ]

Distinct-join_flight :
    (caller : ℕ) (image_path : Text) (fs : List Flight)
    → Distinct fs
    → Distinct (join_flight caller image_path fs)
unfolding join_flight
Distinct-join_flight caller image_path [] d = (refl, tt)
Distinct-join_flight caller image_path (f ∷ fs) d =
    elim (Bool-cases (text_eq f.image_path image_path)) [
      | inl e ↦ rw e d
      | inr e ↦ rw e (
        is_flying-join_flight f.image_path caller image_path fs e d.0,
        Distinct-join_flight caller image_path fs d.1,
      )
    ]

module _ {A : Type 0} where
  -- How often a caller has asked, and was answered.
  abbrev pub asked : ℕ → List (Event A) → ℕ
  asked k [] = 0
  asked k (ask caller image_path ∷ es) = one_if (caller == k) + asked k es
  asked k (settled i outcome ∷ es) = asked k es

  abbrev pub answers_to : ℕ → List (ℕ × A) → ℕ
  answers_to k [] = 0
  answers_to k ((caller, outcome) ∷ rest) = one_if (caller == k) + answers_to k rest

  answers_to-answer_all :
      (k : ℕ) (outcome : A) (callers : List ℕ)
      → answers_to k (answer_all outcome callers) ≡ among k callers
  answers_to-answer_all k outcome [] = refl
  answers_to-answer_all k outcome (c ∷ cs) = omega (arith, answers_to-answer_all k outcome cs)

  waiting-land :
      (k i : ℕ) (outcome : A) (fs : List Flight)
      → waiting k (land i outcome fs).0 + answers_to k (land i outcome fs).1 ≡ waiting k fs
  unfolding land
  waiting-land k i outcome [] = omega arith
  waiting-land k zero outcome (f ∷ fs) = omega (arith, answers_to-answer_all k outcome f.callers)
  waiting-land k (suc i) outcome (f ∷ fs) = omega (arith, waiting-land k i outcome fs)

  answers_to-append :
      (k : ℕ) (xs ys : List (ℕ × A)) → answers_to k (xs ++ ys) ≡ answers_to k xs + answers_to k ys
  answers_to-append k [] ys = omega arith
  answers_to-append k ((c, o) ∷ xs) ys = omega (arith, answers_to-append k xs ys)

  is_flying-land :
      (p : Text) (i : ℕ) (outcome : A) (fs : List Flight)
      → is_flying p fs ≡ false
      → is_flying p (land i outcome fs).0 ≡ false
  unfolding land
  is_flying-land p i outcome [] h = refl
  is_flying-land p zero outcome (f ∷ fs) h = ground arith
  is_flying-land p (suc i) outcome (f ∷ fs) h = ground (arith, is_flying-land p i outcome fs)

  Distinct-land :
      (i : ℕ) (outcome : A) (fs : List Flight) → Distinct fs → Distinct (land i outcome fs).0
  unfolding land
  Distinct-land i outcome [] d = tt
  Distinct-land zero outcome (f ∷ fs) d = d.1
  Distinct-land (suc i) outcome (f ∷ fs) d =
      (is_flying-land f.image_path i outcome fs d.0, Distinct-land i outcome fs d.1)

  run-lem :
      (k : ℕ) (es : List (Event A)) (s : Flights A)
      → Distinct s.in_flight
      → Distinct (run es s).in_flight
        × (waiting k (run es s).in_flight + answers_to k (run es s).answered
            ≡ asked k es + (waiting k s.in_flight + answers_to k s.answered))
  unfolding run step
  run-lem k [] s d = (d, omega arith)
  run-lem k (ask caller image_path ∷ es) s d =
      let (e, f) =
        run-lem k es (step (ask caller image_path) s)
          (Distinct-join_flight caller image_path s.in_flight d) in
      (e, omega (arith, f, waiting-join_flight k caller image_path s.in_flight))
  run-lem k (settled i outcome ∷ es) s d =
      let (e, f) =
        run-lem k es (step (settled i outcome) s) (Distinct-land i outcome s.in_flight d) in
      (
        e,
        omega (
          arith,
          f,
          waiting-land k i outcome s.in_flight,
          answers_to-append k (land i outcome s.in_flight).1 s.answered,
        ),
      )

  -- Whatever the order of calls and outcomes: no two loads on their way are of one image, and every
  -- call was answered once or is waiting, never both and never lost.
  pub run-Distinct :
      (k : ℕ) (es : List (Event A))
      → Distinct (run es no_flights).in_flight
        × (waiting k (run es no_flights).in_flight + answers_to k (run es no_flights).answered
            ≡ asked k es)
  run-Distinct k es = let (d, e) = run-lem k es no_flights tt in (d, e ∙ omega arith)
