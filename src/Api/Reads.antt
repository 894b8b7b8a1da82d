-- ===== src/Api/Reads.antt =====
-- What the cached reads of frontend/lib/api.ts answer: those through `fetchFullEnvelope`, and those which open
-- the envelope themselves.
use rank_verse.Base.{ℕ, ◌≡◌, ◌↔◌, Bool, true, false, none, some, List, arith}
use rank_verse.Base.Text.{Text}
use rank_verse.Account.Retry.{is_ok}
use rank_verse.Api.Client.{
  Net, Answer, Timed, arrived, timed_out, broken, World, Result, ok, err, ◌>>=◌, settle, by_timed,
  cache_for, public_get, fetch_full_envelope, fetch_with_timeout, open_envelope, is_not_found_error,
  and_then,
}

module _ {S J : Type 0} (net : Net S J) where
  -- An answer with this JSON: of a good status, and with no error in its envelope.
  abbrev pub Delivers : Timed J → J → Type 0
  Delivers (arrived res) json =
      (is_ok res.status ≡ true) × (res.body ≡ some json) × (net.error json ≡ none)
  Delivers timed_out json = ⊥
  Delivers broken json = ⊥

  abbrev pub IsMissing : Timed J → Type 0
  IsMissing (arrived res) = res.status ≡ 404
  IsMissing timed_out = ⊥
  IsMissing broken = ⊥

  -- What the failure of a read is taken for.
  abbrev pub not_found : {B : Type 0} → Result B → Bool
  not_found (ok b) = false
  not_found (err e) = is_not_found_error e

  open_envelope-ok :
      (path : Text) (res : Answer J) (json : J)
      → (open_envelope net path res ≡ ok json) ↔ Delivers (arrived res) json
  unfolding open_envelope
  open_envelope-ok path res json = (λ h. ground arith, λ h. ground arith)

  open_envelope-not_found :
      (path : Text) (res : Answer J)
      → (not_found (open_envelope net path res) ≡ true) ↔ (res.status ≡ 404)
  unfolding open_envelope is_not_found_error
  open_envelope-not_found path res = (λ h. ground arith, λ h. ground arith)

  by_answer :
      (path : Text) (t : Timed J) (w : World S) (json : J)
      → (((and_then (by_timed net path t, w) (λ res. settle (open_envelope net path res))).0
            ≡ ok json)
          ↔ Delivers t json)
        × ((not_found
                (and_then (by_timed net path t, w) (λ res. settle (open_envelope net path res))).0
              ≡ true)
            ↔ IsMissing t)
  unfolding settle is_not_found_error
  by_answer path (arrived res) w json =
      (open_envelope-ok path res json, open_envelope-not_found path res)
  by_answer path timed_out w json = ((λ h. cc, λ h. absurd h), (λ h. cc, λ h. absurd h))
  by_answer path broken w json = ((λ h. cc, λ h. absurd h), (λ h. cc, λ h. absurd h))

  -- A read through `fetchFullEnvelope` gives an answer's JSON exactly where the answer is of a good
  -- status and without an error, and fails as "not found" exactly where the status is 404: not where
  -- the backend is out of reach, late or broken.
  pub fetch_full_envelope-answers :
      (path : Text) (seconds : ℕ) (tags : List Text) (w : World S) (json : J)
      → (((fetch_full_envelope net path seconds tags w).0 ≡ ok json)
          ↔ Delivers
              (net.fetch_timed (public_get net path (cache_for net seconds tags)) w.server).0
              json)
        × ((not_found (fetch_full_envelope net path seconds tags w).0 ≡ true)
            ↔ IsMissing
                (net.fetch_timed (public_get net path (cache_for net seconds tags)) w.server).0)
  unfolding fetch_full_envelope fetch_with_timeout ◌>>=◌ settle
  fetch_full_envelope-answers path seconds tags w json =
      by_answer path (net.fetch_timed (public_get net path (cache_for net seconds tags)) w.server).0
        _ json

  -- A read that gives what it takes of an answer's JSON exactly where the answer delivers that JSON, and
  -- fails as "not found" exactly where the status is 404.
  abbrev pub IsReadOf : {B : Type 0} → Timed J → (J → B) → Result B → Type 0
  IsReadOf {B} t take r =
      ((b : B) → (r ≡ ok b) ↔ ((json : J) × Delivers t json × (take json ≡ b)))
      × ((not_found r ≡ true) ↔ IsMissing t)
