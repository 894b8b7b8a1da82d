-- ===== src/Account/Retry/Keeps.antt =====
-- What each exchange with the server keeps, a request with its silent refresh keeps.
use rank_verse.Base.{
  Bool, not, ◌||◌, String, Option, none, some, Bool-cases, inl, inr, ◌==◌, str_eq,
}
use rank_verse.Account.Retry.{
  Request, Response, RefreshReply, Refreshed, token, ended, failed, Tab, resume, renew, inspect,
  fetch_with_auth_retry, refresh_access_token,
}

module _ {ℓ κ ι μ} {R : Type ℓ} {B : Type κ} {S : Type ι}
    (fetch : Request R → S → Option (Response B) × S)
    (refresh : String → S → Option RefreshReply × S) (Inv : S → Type μ) (init : Request R)
    (sent : (s : S) → Inv s → Inv (fetch init s).1)
    (resent : (new : String) (s : S)
      → Inv s
      → Inv (fetch (record init { authorization = some new }) s).1)
    (renewed : (stored : String) (s : S) → Inv s → Inv (refresh stored s).1) where
  resume-keeps :
      (res : Response B) (outcome : Refreshed) (tab : Tab) (s : S)
      → Inv s
      → Inv (resume fetch refresh init res outcome tab s).server
  resume-keeps res (token new) tab s h = resent new s h
  resume-keeps res ended tab s h = h
  resume-keeps res failed tab s h = h

  renew-keeps :
      (res : Response B) (stored : Option String) (tab : Tab) (s : S)
      → Inv s
      → Inv (renew fetch refresh init res stored tab s).server
  renew-keeps res none tab s h = h
  renew-keeps res (some stored) tab s h = elim (Bool-cases (str_eq stored "")) [
    | inl b ↦ rw b h
    | inr b ↦ rw b (
        resume-keeps res (refresh_access_token (refresh stored s).0) tab (refresh stored s).1
          (renewed stored s h))
  ]

  inspect-keeps :
      (in_browser : Bool) (first : Option (Response B)) (tab : Tab) (s : S)
      → Inv s
      → Inv (inspect fetch refresh in_browser init first tab s).server
  inspect-keeps in_browser none tab s h = h
  inspect-keeps in_browser (some res) tab s h =
      elim (Bool-cases (not (res.status == 401) || not in_browser)) [
        | inl b ↦ rw b h
        | inr b ↦ rw b (renew-keeps res tab.refresh tab s h)
      ]

  pub fetch_with_auth_retry-keeps :
      (in_browser : Bool) (tab : Tab) (s : S)
      → Inv s
      → Inv (fetch_with_auth_retry fetch refresh in_browser init tab s).server
  unfolding fetch_with_auth_retry
  fetch_with_auth_retry-keeps in_browser tab s h =
      inspect-keeps in_browser (fetch init s).0 tab (fetch init s).1 (sent s h)
