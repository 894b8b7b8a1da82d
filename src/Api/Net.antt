-- ===== src/Api/Net.antt =====
-- What a call of the backend is made of (frontend/lib/api.ts): requests, answers, failures and the
-- browser with the server. The latter are a record: the two kinds of fetch, the refresh, the spelling
-- of queries and path segments, and what the code reads of a JSON value. An address is a path below
-- `API_BASE`.
use rank_verse.Base.Text.{Text, codes, text_eq}
use rank_verse.Base.{
  ℕ, String, Bool, false, Option, none, some, List, [], ◌∷◌, ◌++◌, if◌then◌else◌, str_eq, ◌==◌,
}
use rank_verse.Labels.Digits.{decimal}
use rank_verse.Account.Retry.{Request, Response, RefreshReply, Tab}

-- The pairs of `URLSearchParams`.
abbrev pub Query : Type 0
Query = List (Text × Text)

-- A value in a body that the code puts together.
pub data Field : Type 0 where
  text : Text → Field
  number : ℕ → Field
  flag : Bool → Field
  texts : List Text → Field
  flags : List (Text × Bool) → Field

pub data Body (J : Type 0) : Type 0 where
  payload : J → Body J
  object : List (Text × Field) → Body J

-- How an answer is kept: for this many seconds under tags, or not at all.
pub data Cache : Type 0 where
  revalidate : ℕ → List Text → Cache
  no_store unset : Cache

-- What `init` holds besides the `Authorization` header.
pub record Init (J : Type 0) : Type 0 where
  pub method : Text
  pub json_content : Bool
  pub guest : Option Text
  pub body : Option (Body J)
  pub cache : Cache

abbrev pub Sent : Type 0 → Type 0
Sent J = Request (Init J)

abbrev pub Answer : Type 0 → Type 0
Answer J = Response (Option J)

-- A fetch with `AbortSignal.timeout`.
pub data Timed (J : Type 0) : Type 0 where
  arrived : Answer J → Timed J
  timed_out broken : Timed J

pub record Net (S J : Type 0) : Type 0 where
  pub in_browser : Bool
  pub fetch : Sent J → S → Option (Answer J) × S
  pub fetch_timed : Sent J → S → Timed J × S
  pub refresh : String → S → Option RefreshReply × S
  -- `URLSearchParams.toString`, `encodeURIComponent`, `decodeURIComponent`, `normalize("NFC")`
  pub query : Query → Text
  pub encode : Text → Text
  pub decode : Text → Option Text
  pub normalize : Text → Text
  -- `json.error` with its message, `json.data`, `json.meta?.total`
  pub error : J → Option Text
  pub contents : J → J
  pub total : J → Option ℕ
  -- `detail` where it is truthy, where it is a string, and the fields that its entries name
  pub detail : J → Option Text
  pub detail_string : J → Option Text
  pub detail_fields : J → List Text
  pub field : Text → J → J
  pub size : J → ℕ

-- What a promise is rejected with: `ApiError`, `TournamentApiError`, another `Error`, or an error of
-- the platform.
pub data Failure : Type 0 where
  api_error tournament_error : ℕ → Text → Failure
  error : Text → Failure
  foreign : Failure

pub data Result (A : Type 0) : Type 0 where
  ok : A → Result A
  err : Failure → Result A

-- The tab's store and the server's state.
pub record World (S : Type 0) : Type 0 where
  pub tab : Tab
  pub server : S

abbrev pub Client : Type 0 → Type 0 → Type 0
Client S A = World S → Result A × World S

abbrev pub and_then : {S A B : Type 0} → Result A × World S → (A → Client S B) → Result B × World S
and_then (ok a, w) f = f a w
and_then (err e, w) f = (err e, w)

infixl 5 ◌>>=◌
unfoldable pub ◌>>=◌ : {S A B : Type 0} → Client S A → (A → Client S B) → Client S B
◌>>=◌ m f w = and_then (m w) f

unfoldable pub settle : {S A : Type 0} → Result A → Client S A
settle r w = (r, w)

-- `a || b` on texts
abbrev pub or_text : Option Text → Text → Text
or_text none other = other
or_text (some []) other = other
or_text (some (c ∷ s)) other = c ∷ s

-- An empty token is none.
abbrev pub truthy : Option String → Option String
truthy none = none
truthy (some t) = if str_eq t "" then none else some t

-- `CinemaGozin API error (${status}) on ${path}`
abbrev pub status_message : ℕ → Text → Text
status_message status path =
    codes "CinemaGozin API error (" ++ decimal status ++ codes ") on " ++ path

unfoldable pub is_not_found_error : Failure → Bool
is_not_found_error (api_error status message) = status == 404
is_not_found_error (tournament_error status message) = false
is_not_found_error (error message) = false
is_not_found_error foreign = false

-- `qs.set`
unfoldable pub put : Text → Text → Query → Query
put key value [] = (key, value) ∷ []
put key value ((k, v) ∷ q) = if text_eq k key then (k, value) ∷ q else (k, v) ∷ put key value q

-- `if (value) qs.set(key, String(value))`
unfoldable pub set_text : Text → Option Text → Query → Query
unfolding put
set_text key none q = q
set_text key (some []) q = q
set_text key (some (c ∷ s)) q = put key (c ∷ s) q

unfoldable pub set_number : Text → Option ℕ → Query → Query
unfolding put
set_number key none q = q
set_number key (some n) q = if n == 0 then q else put key (decimal n) q
