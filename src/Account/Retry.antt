-- ===== src/Account/Retry.antt =====
-- frontend/lib/api.ts: `refreshAccessToken` and `fetchWithAuthRetry`. The server is a parameter: its
-- state and its answers to a request and to a refresh, where `none` is a fetch that throws (or, for a
-- refresh, a body that does not parse). The listeners are those of Account.Provider.
pub mod Laws
pub mod Keeps
use rank_verse.Base.Text.{Text}
use rank_verse.Base.{
  ℕ, ◌+◌, String, Bool, true, false, not, ◌&&◌, ◌||◌, Option, none, some, ◌==◌, leb, str_eq,
  if◌then◌else◌,
}

-- A request; what its `init` holds besides the `Authorization` header is `rest`.
pub record Request {ℓ} (R : Type ℓ) : Type ℓ where
  pub path : Text
  pub authorization : Option String
  pub rest : R

-- A response; `body` is what its caller reads.
pub record Response {ℓ} (B : Type ℓ) : Type ℓ where
  pub status : ℕ
  pub body : B

-- The answer of `/auth/refresh`: its status, the envelope's error, the envelope's token.
pub record RefreshReply : Type 0 where
  pub status : ℕ
  pub error : Option String
  pub access_token : String

-- What `refreshAccessToken` does: it returns a token, throws `SessionEndedError` or another error.
pub data Refreshed : Type 0 where
  token : String → Refreshed
  ended failed : Refreshed

-- `res.ok`
abbrev pub is_ok : ℕ → Bool
is_ok status = leb 200 status && leb status 299

abbrev is_there {ℓ} : {A : Type ℓ} → Option A → Bool
is_there none = false
is_there (some a) = true

unfoldable pub refresh_access_token : Option RefreshReply → Refreshed
refresh_access_token none = failed
refresh_access_token (some res) =
    if res.status == 401
    then ended
    else if not (is_ok res.status) || is_there res.error
    then failed
    else token res.access_token

-- The tab's store and its context; `refreshed` and `ended_sessions` count the calls of the listeners.
pub record Tab : Type 0 where
  pub access : Option String
  pub refresh : Option String
  pub refreshed : ℕ
  pub ended_sessions : ℕ

abbrev pub adopt : String → Tab → Tab
adopt new tab = record tab { access = some new; refreshed = tab.refreshed + 1 }

abbrev pub clear : Tab → Tab
clear tab = record tab { access = none; refresh = none; ended_sessions = tab.ended_sessions + 1 }

module _ {ℓ κ ι} {R : Type ℓ} {B : Type κ} {S : Type ι}
    (fetch : Request R → S → Option (Response B) × S)
    (refresh : String → S → Option RefreshReply × S) where
  pub record Outcome : Type (κ ⊔ ι) where
    pub result : Option (Response B)
    pub tab : Tab
    pub server : S

  abbrev resend : Request R → String → Tab → S → Outcome
  resend init new tab s =
      let r = fetch (record init { authorization = some new }) s in
      record { result = r.0; tab = adopt new tab; server = r.1 }

  -- By the outcome of the refresh.
  abbrev resume : Request R → Response B → Refreshed → Tab → S → Outcome
  resume init res (token new) tab s = resend init new tab s
  resume init res ended tab s = record { result = some res; tab = clear tab; server = s }
  resume init res failed tab s = record { result = some res; tab = tab; server = s }

  -- By the stored refresh token; an empty one is none.
  abbrev renew : Request R → Response B → Option String → Tab → S → Outcome
  renew init res none tab s = record { result = some res; tab = tab; server = s }
  renew init res (some stored) tab s =
      let r = refresh stored s in
      if str_eq stored ""
      then record { result = some res; tab = tab; server = s }
      else resume init res (refresh_access_token r.0) tab r.1

  -- By the first response; `in_browser` is that there is a `window`.
  abbrev inspect : Bool → Request R → Option (Response B) → Tab → S → Outcome
  inspect in_browser init none tab s = record { result = none; tab = tab; server = s }
  inspect in_browser init (some res) tab s =
      if not (res.status == 401) || not in_browser
      then record { result = some res; tab = tab; server = s }
      else renew init res tab.refresh tab s

  unfoldable pub fetch_with_auth_retry : Bool → Request R → Tab → S → Outcome
  fetch_with_auth_retry in_browser init tab s =
      let r = fetch init s in inspect in_browser init r.0 tab r.1
