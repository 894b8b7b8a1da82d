-- ===== src/Account/Provider/Laws.antt =====
-- What holds of a tab's session (frontend/lib/auth-context.tsx) whatever happens.
use rank_verse.Account.Provider.{check_stored}
use rank_verse.Base.{
  ◌≡◌, refl, String, Option, none, some, List, [], ◌∷◌, arith, if◌then◌else◌, str_eq, Bool-cases,
  inl, inr, All,
}
use rank_verse.Account.Provider.{
  Session, opened, Event, logged_in, adopt, refreshed, ended, logout, step, run, on_mount,
  on_checked,
}

-- An empty token counts as none.
abbrev pub held : Option String → Option String
held none = none
held (some t) = if str_eq t "" then none else some t

-- The state and the ref hold one token, the stored one, and the page waits while the stored one is
-- checked.
pub record IsSound (s : Session) : Type 0 where
  pub one_token : s.ref ≡ s.token
  pub mirrored : held s.stored_access ≡ held s.token
  pub waiting : s.loading ≡ s.checking

check_stored-IsSound :
    (access refresh stored : Option String)
    → access ≡ stored
    → IsSound (check_stored stored (opened access refresh))
check_stored-IsSound access refresh none e =
    rw e (record { one_token = refl; mirrored = refl; waiting = refl })
check_stored-IsSound access refresh (some t) e = elim (Bool-cases (str_eq t "")) [
  | inl b ↦ rw (e, b) (record { one_token = refl; mirrored = rw b refl; waiting = refl })
  | inr b ↦ rw (e, b) (record { one_token = refl; mirrored = refl; waiting = refl })
]

step-IsSound : (e : Event) {s : Session} → IsSound s → IsSound (step e s)
unfolding step on_checked
step-IsSound logout h = ground arith
step-IsSound _ h = ground arith

run-keeps : (es : List Event) {s : Session} → IsSound s → IsSound (run es s)
unfolding run
run-keeps [] h = h
run-keeps (e ∷ es) h = run-keeps es (step-IsSound e h)

-- Whatever an earlier visit left in the store, and whatever happens after the first render, in any
-- order: the state's token and the ref's are one, they are the stored token (an empty one counts as
-- none), and the page is loading exactly while the stored token is being checked.
pub run-IsSound :
    (access refresh : Option String) (es : List Event)
    → IsSound (run es (on_mount (opened access refresh)))
unfolding on_mount
run-IsSound access refresh es = run-keeps es (check_stored-IsSound access refresh access refl)

-- An event that brings no token.
abbrev pub BringsNone : Event → Type 0
BringsNone (logged_in (some t)) = ⊥
BringsNone (adopt t) = ⊥
BringsNone (refreshed new) = ⊥
BringsNone _ = Unit

pub record IsSignedOut (s : Session) : Type 0 where
  pub no_access : s.stored_access ≡ none
  pub no_refresh : s.stored_refresh ≡ none
  pub no_token : s.token ≡ none
  pub no_ref : s.ref ≡ none

step-IsSignedOut : (e : Event) {s : Session} → BringsNone e → IsSignedOut s → IsSignedOut (step e s)
unfolding step on_checked
step-IsSignedOut logout b h = ground arith
step-IsSignedOut (logged_in none) b h = ground arith
step-IsSignedOut (logged_in (some t)) b h = absurd b
step-IsSignedOut _ b h = ground arith

run-stays :
    (es : List Event) {s : Session} → All BringsNone es → IsSignedOut s → IsSignedOut (run es s)
unfolding run
run-stays [] b h = h
run-stays (e ∷ es) b h = run-stays es b.1 (step-IsSignedOut e b.0 h)

-- Logging out, or an end of the session by the server, removes both tokens from the store, the state
-- and the ref; and they stay away until an event brings new ones, whatever answers come in late.
pub logout-IsSignedOut :
    (s : Session) (es : List Event)
    → All BringsNone es
    → IsSignedOut (run (logout ∷ es) s) × IsSignedOut (run (ended ∷ es) s)
unfolding run step
logout-IsSignedOut s es b = (run-stays es b (ground arith), run-stays es b (ground arith))
