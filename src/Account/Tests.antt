-- ===== src/Account/Tests.antt =====
-- The account's machines at concrete inputs.
use rank_verse.Base.{List}
use rank_verse.Base.{
  ℕ, ◌+◌, ◌≡◌, refl, String, Bool, true, false, Option, none, some, [], ◌∷◌, ◌++◌, str_eq,
  if◌then◌else◌,
}
use rank_verse.Base.Text.{codes}
use rank_verse.Account.Retry.{
  Request, Response, RefreshReply, Tab, fetch_with_auth_retry, Outcome, adopt, clear,
}
use rank_verse.Account.Provider
use rank_verse.Account.Provider.{
  Tokens, Session, User, opened, checked, login, logged_in, read, refreshed, logout, ended,
  on_mount,
}
use rank_verse.Account.Provider.Laws as ProviderLaws
use rank_verse.Account.Gate
use rank_verse.Account.Gate.{
  Gate, closed, require, open_login_modal, close_modal, run_pending_action,
}
use rank_verse.Account.Gate.Laws as GateLaws
use rank_verse.Account.Marks.{Marks, of_list, click, answered, step}
use rank_verse.Account.Marks.Laws.{IsAligned, Course, here, next, Course-IsAligned}

-- A server that refuses the token "old" and counts the requests; a refresh gives "new".
abbrev refuses : Option String → Bool
refuses none = false
refuses (some t) = str_eq t "old"

abbrev serve : Request ℕ → ℕ → Option (Response ℕ) × ℕ
serve r n =
    if refuses r.authorization
    then (some (record { status = 401; body = 0 }), n + 1)
    else (some (record { status = 200; body = r.rest }), n + 1)

abbrev renew : String → ℕ → Option RefreshReply × ℕ
renew stored n = (some (record { status = 200; error = none; access_token = "new" }), n + 1)

abbrev a_request : Request ℕ
a_request = record { path = codes "/auth/me"; authorization = some "old"; rest = 5 }

abbrev a_tab : Tab
a_tab = record { access = some "old"; refresh = some "r"; refreshed = 0; ended_sessions = 0 }

retried :
    (fetch_with_auth_retry serve renew true a_request a_tab 0).result
    ≡ some (record { status = 200; body = 5 })
unfolding fetch_with_auth_retry rank_verse.Account.Retry.refresh_access_token
retried = refl

abbrev new_tokens : Tokens
new_tokens = record { access_token = "a2"; refresh_token = "r2" }

run-IsSound_example : ProviderLaws.IsSound (
    Provider.run
      (login ∷ checked none ∷ logged_in (some new_tokens) ∷ [])
      (on_mount (opened (some "a") (some "r"))))
run-IsSound_example =
    ProviderLaws.run-IsSound (some "a") (some "r")
      (login ∷ checked none ∷ logged_in (some new_tokens) ∷ [])

logout-IsSignedOut_example :
    ProviderLaws.IsSignedOut
      (Provider.run (logout ∷ checked none ∷ read none ∷ []) (opened (some "a") (some "r")))
    × ProviderLaws.IsSignedOut
        (Provider.run (ended ∷ checked none ∷ read none ∷ []) (opened (some "a") (some "r")))
logout-IsSignedOut_example =
    ProviderLaws.logout-IsSignedOut (opened (some "a") (some "r")) (checked none ∷ read none ∷ [])
      (tt, (tt, tt))

-- The check of the stored token fails after a login: the new session's tokens go as well.
late_check :
    (Provider.run
      (login ∷ logged_in (some new_tokens) ∷ checked none ∷ [])
      (on_mount (opened (some "a") (some "r")))).token
    ≡ none
unfolding Provider.run on_mount
late_check = refl

abbrev save : String
save = "save"

abbrev like : String
like = "like"

abbrev more : List String
more = "vote" ∷ "follow" ∷ []

run-asked_example :
    ((Gate.run (GateLaws.asked save more (run_pending_action ∷ run_pending_action ∷ [])) closed).ran
      ≡ ([] ++ more) ++ save ∷ [])
    × ((Gate.run (GateLaws.asked save more (close_modal ∷ run_pending_action ∷ [])) closed).ran
        ≡ [] ++ more)
    × ((Gate.run (GateLaws.asked save more (open_login_modal ∷ run_pending_action ∷ [])) closed).ran
        ≡ [] ++ more)
    × ((Gate.run
          (GateLaws.asked save more (require false like ∷ run_pending_action ∷ []))
          closed).ran
        ≡ ([] ++ more) ++ like ∷ [])
run-asked_example = GateLaws.run-asked save like more closed

abbrev read_marks : Marks
read_marks = record { shown = of_list ("x" ∷ []); server = of_list ("x" ∷ []); in_flight = [] }

-- "x" is unmarked, "y" is marked, the server refuses the first.
abbrev after : Marks
after =
    step (answered 1 false) (step (click (some "t") "y") (step (click (some "t") "x") read_marks))

after-Course : Course read_marks after
unfolding step
after-Course =
    next (click (some "t") "x") refl
      (next (click (some "t") "y") refl (next (answered 1 false) tt here))

read_marks-IsAligned : IsAligned read_marks
read_marks-IsAligned = record { distinct = tt; right = λ id. refl }

Course-IsAligned_example : IsAligned after
Course-IsAligned_example = Course-IsAligned after-Course read_marks-IsAligned

-- A second click while the first is on its way, which the server refuses: the mark ends up unlike the
-- server's.
abbrev overlapping : Marks
overlapping =
    step (answered 0 true) (
      step (answered 1 false)
        (step (click (some "t") "y") (step (click (some "t") "y") read_marks)))

overlapping_toggles : (overlapping.shown "y" ≡ false) × (overlapping.server "y" ≡ true)
unfolding step
overlapping_toggles = (refl, refl)
