-- ===== src/Account/Retry/Laws.antt =====
-- What a request with a silent token refresh does (frontend/lib/api.ts, `fetchWithAuthRetry`).
use rank_verse.Base.{
  ◌≢◌, false, ℕ, ◌+◌, ◌≤◌, ◌≡◌, ◌⊎◌, inl, inr, String, Bool, true, Option, none, some, arith, ◌==◌,
  str_eq, ◌||◌, not, Bool-cases,
}
use rank_verse.Account.Retry.{
  Request, Response, RefreshReply, Refreshed, token, ended, failed, is_ok, refresh_access_token,
  Tab, adopt, clear, Outcome, resume, renew, inspect, fetch_with_auth_retry,
}

-- The refresh succeeded with this token; the server refused it.
abbrev pub Renews : Option RefreshReply → String → Type 0
Renews none new = ⊥
Renews (some res) new = (is_ok res.status ≡ true) × (res.error ≡ none) × (res.access_token ≡ new)

abbrev pub Refuses : Option RefreshReply → Type 0
Refuses none = ⊥
Refuses (some res) = res.status ≡ 401

-- There is no usable reply, and no refusal.
abbrev pub Breaks : Option RefreshReply → Type 0
Breaks none = Unit
Breaks (some res) = (res.status ≢ 401) × (is_ok res.status ≡ true → res.error ≢ none)

abbrev ByRefresh : Option RefreshReply → Refreshed → Type 0
ByRefresh reply (token new) = Renews reply new
ByRefresh reply ended = Refuses reply
ByRefresh reply failed = Breaks reply

-- In a browser, a request was refused with a 401, and there is a refresh token.
abbrev pub Asks {κ} : {B : Type κ} → Bool → Option (Response B) → Option String → Type 0
Asks in_browser none stored = ⊥
Asks in_browser (some res) none = ⊥
Asks in_browser (some res) (some stored) =
    (in_browser ≡ true) × (res.status ≡ 401) × (str_eq stored "" ≡ false)

module _ {ℓ κ ι} {R : Type ℓ} {B : Type κ} {S : Type ι}
    (fetch : Request R → S → Option (Response B) × S)
    (refresh : String → S → Option RefreshReply × S) where
  abbrev Alone : Tab → Option (Response B) → Outcome fetch refresh → Type κ
  Alone tab first out = (out.tab ≡ tab) × (out.result ≡ first)

  -- The outcome by the refresh: its token is stored and the request made again under it; the tab is
  -- signed out; or nothing changes.
  abbrev pub Follows :
      Request R → Tab → Option (Response B) → S → String → Outcome fetch refresh → Type κ
  Follows init tab first s stored out =
      ((new : String) × Renews (refresh stored s).0 new
        × (out.tab ≡ adopt new tab)
        × (out.result ≡ (fetch (record init { authorization = some new }) (refresh stored s).1).0))
      ⊎ (Refuses (refresh stored s).0 × (out.tab ≡ clear tab) × (out.result ≡ first))
      ⊎ (Breaks (refresh stored s).0 × Alone tab first out)

  -- By the refresh token that the tab holds.
  abbrev pub Settling :
      Bool
      → Request R
      → Tab
      → Option (Response B)
      → S
      → Option String
      → Outcome fetch refresh
      → Type κ
  Settling in_browser init tab first s held out =
      ((¬ Asks in_browser first held) × Alone tab first out)
      ⊎ (Asks in_browser first held
          × ((stored : String) × (held ≡ some stored) × Follows init tab first s stored out))

  abbrev pub Settles :
      Bool → Request R → Tab → Option (Response B) → S → Outcome fetch refresh → Type κ
  Settles in_browser init tab first s out = Settling in_browser init tab first s tab.refresh out

  -- The same server, which counts the calls that reach it.
  abbrev pub counted : Request R → S × ℕ → Option (Response B) × (S × ℕ)
  counted init s = let r = fetch init s.0 in (r.0, (r.1, s.1 + 1))

  abbrev pub counted_refresh : String → S × ℕ → Option RefreshReply × (S × ℕ)
  counted_refresh stored s = let r = refresh stored s.0 in (r.0, (r.1, s.1 + 1))

  resume-calls :
      (init : Request R) (res : Response B) (outcome : Refreshed) (tab : Tab) (s : S × ℕ)
      → (resume counted counted_refresh init res outcome tab s).server.1 ≤ s.1 + 1
  resume-calls init res (token new) tab s = omega arith
  resume-calls init res ended tab s = omega arith
  resume-calls init res failed tab s = omega arith

  renew-calls :
      (init : Request R) (res : Response B) (stored : Option String) (tab : Tab) (s : S × ℕ)
      → (renew counted counted_refresh init res stored tab s).server.1 ≤ s.1 + 2
  renew-calls init res none tab s = omega arith
  renew-calls init res (some stored) tab s = elim (Bool-cases (str_eq stored "")) [
    | inl b ↦ rw b (omega arith)
    | inr b ↦
        let r = counted_refresh stored s in
        rw b (omega (arith, resume-calls init res (refresh_access_token r.0) tab r.1))
  ]

  inspect-calls :
      (in_browser : Bool) (init : Request R) (first : Option (Response B)) (tab : Tab) (s : S × ℕ)
      → (inspect counted counted_refresh in_browser init first tab s).server.1 ≤ s.1 + 2
  inspect-calls in_browser init none tab s = omega arith
  inspect-calls in_browser init (some res) tab s =
      elim (Bool-cases (not (res.status == 401) || not in_browser)) [
        | inl b ↦ rw b (omega arith)
        | inr b ↦ rw b (renew-calls init res tab.refresh tab s)
      ]

  -- Whatever the server answers, a request reaches it at most three times: once, a refresh, and once
  -- more.
  fetch_with_auth_retry-calls :
      (in_browser : Bool) (init : Request R) (tab : Tab) (s : S)
      → (fetch_with_auth_retry counted counted_refresh in_browser init tab (s, 0)).server.1 ≤ 3
  unfolding fetch_with_auth_retry
  fetch_with_auth_retry-calls in_browser init tab s =
      omega (arith, inspect-calls in_browser init (fetch init s).0 tab ((fetch init s).1, 1))
