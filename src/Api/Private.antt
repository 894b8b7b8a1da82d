-- ===== src/Api/Private.antt =====
-- Which answers may be kept: the rules of Api.Sends at the ways in which frontend/lib/api.ts sends.
use rank_verse.Api.Client.{public_get}
use rank_verse.Base.{some}
use rank_verse.Base.{ℕ, refl, String, Option, none, List}
use rank_verse.Base.Text.{Text}
use rank_verse.Api.Client.{
  Answer, plain, with_auth_retry, fetch_with_timeout, no_store, Net, Sent, Body, Client, Result, ok,
  ◌>>=◌, settle, Cache, revalidate, no_store, unset, fetch_full_envelope, fetch_envelope,
  post_envelope, auth_fetch_envelope, auth_fetch,
}
use rank_verse.Api.Sends.{
  Log, logged, Sends, Shareable, >>=-Sends, settle-Sends, fetch_with_timeout-Sends,
  with_auth_retry-Sends, plain-Sends,
}

abbrev pub IsShareable : {J : Type 0} → Sent J → Type 0
IsShareable r = Shareable r.rest.cache r.authorization

pub Shareable-none : (cache : Cache) → Shareable cache none
Shareable-none (revalidate seconds tags) = refl
Shareable-none no_store = tt
Shareable-none unset = tt

-- The call, its result dropped.
abbrev pub discard : {S A : Type 0} → Client S A → Client S (Unit {0})
discard m = m >>= λ _. settle (ok tt)

module _ {S J : Type 0} (net : Net S J) where
  -- A call that goes on with a result that it only computes.
  pub then_settle :
      {A B : Type 0} (m : Client (Log S J) A) (f : A → Result B)
      → Sends IsShareable m
      → Sends IsShareable (m >>= λ a. settle (f a))
  then_settle m f h =
      >>=-Sends IsShareable net m (λ a. settle (f a)) h (λ a. settle-Sends IsShareable net (f a))

  pub discard-Sends :
      {A : Type 0} (m : Client (Log S J) A) → Sends IsShareable m → Sends IsShareable (discard m)
  discard-Sends m h = then_settle m (λ _. ok tt) h

  pub fetch_full_envelope-Sends :
      (path : Text) (seconds : ℕ) (tags : List Text)
      → Sends IsShareable (fetch_full_envelope (logged net) path seconds tags)
  unfolding fetch_full_envelope
  fetch_full_envelope-Sends path seconds tags =
      then_settle _ _ (fetch_with_timeout-Sends IsShareable net path _ (Shareable-none _))

  pub fetch_envelope-Sends :
      (path : Text) (seconds : ℕ) (tags : List Text)
      → Sends IsShareable (fetch_envelope (logged net) path seconds tags)
  unfolding fetch_envelope
  fetch_envelope-Sends path seconds tags =
      then_settle _ _ (fetch_full_envelope-Sends path seconds tags)

  pub post_envelope-Sends :
      (path : Text) (body : Body J) → Sends IsShareable (post_envelope (logged net) path body)
  unfolding post_envelope
  post_envelope-Sends path body =
      >>=-Sends IsShareable net _ _ (plain-Sends IsShareable net _ tt)
        (λ res. then_settle _ _ (settle-Sends IsShareable net _))

  pub auth_fetch_envelope-Sends :
      (path : Text) (token : String) (method : Text) (body : Option (Body J))
      → Sends IsShareable (auth_fetch_envelope (logged net) path token method body)
  unfolding auth_fetch_envelope
  auth_fetch_envelope-Sends path token method body =
      then_settle _ _ (with_auth_retry-Sends IsShareable net _ tt (λ new. tt))

  pub auth_fetch-Sends :
      (path : Text) (token : String) (method : Text) (body : Option (Body J))
      → Sends IsShareable (auth_fetch (logged net) path token method body)
  unfolding auth_fetch
  auth_fetch-Sends path token method body =
      then_settle _ _ (auth_fetch_envelope-Sends path token method body)

  -- The reads that open the answer themselves, with and without a time limit.
  pub read_timed-Sends :
      {B : Type 0} (path : Text) (cache : Cache) (f : Answer J → Result J) (g : J → Result B)
      → Sends IsShareable (
          fetch_with_timeout (logged net) path cache >>= λ res.
          settle (f res) >>= λ json. settle (g json))
  read_timed-Sends path cache f g =
      >>=-Sends IsShareable net _ _
        (fetch_with_timeout-Sends IsShareable net path cache (Shareable-none cache))
        (λ res. then_settle _ _ (settle-Sends IsShareable net (f res)))

  pub read_plain-Sends :
      {B : Type 0} (path : Text) (f : Answer J → Result J) (g : J → Result B)
      → Sends IsShareable (
          plain (logged net) (public_get net path no_store) >>= λ res.
          settle (f res) >>= λ json. settle (g json))
  read_plain-Sends path f g =
      >>=-Sends IsShareable net _ _ (plain-Sends IsShareable net _ tt)
        (λ res. then_settle _ _ (settle-Sends IsShareable net (f res)))

  -- A request of its own with the silent refresh, whose answer is not to be kept.
  pub raw-Sends :
      {B : Type 0} (init : Sent J) (f : Answer J → Result B)
      → ((token : Option String) → Shareable init.rest.cache token)
      → Sends IsShareable (with_auth_retry (logged net) init >>= λ res. settle (f res))
  raw-Sends init f h =
      then_settle _ f
        (with_auth_retry-Sends IsShareable net init (h init.authorization) (λ new. h (some new)))
