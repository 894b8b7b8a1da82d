-- ===== src/Api/Sends.antt =====
-- What the calls of frontend/lib/api.ts send: the server with a log of its requests, and rules that
-- show a predicate of every request a call makes.
use rank_verse.Base.{◌≡◌, String, Option, none, some, List, ◌∷◌, All}
use rank_verse.Base.Text.{Text}
use rank_verse.Account.Retry.{Tab}
use rank_verse.Account.Retry.Keeps.{fetch_with_auth_retry-keeps}
use rank_verse.Api.Client.{
  arrival, Net, Sent, Answer, Client, World, Result, ok, err, ◌>>=◌, settle, Cache, revalidate,
  no_store, unset, plain, with_auth_retry, fetch_with_timeout, public_get, and_then,
}

abbrev pub Log : Type 0 → Type 0 → Type 0
Log S J = S × List (Sent J)

module _ {S J : Type 0} where
  abbrev log_fetch : {A : Type 0} → (Sent J → S → A × S) → Sent J → Log S J → A × Log S J
  log_fetch fetch init s = let r = fetch init s.0 in (r.0, (r.1, init ∷ s.1))

  -- The same browser and server; each request that is sent is noted.
  abbrev pub logged : Net S J → Net (Log S J) J
  logged net = record {
    in_browser = net.in_browser;
    fetch = log_fetch net.fetch;
    fetch_timed = log_fetch net.fetch_timed;
    refresh = λ stored s. let r = net.refresh stored s.0 in (r.0, (r.1, s.1));
    query = net.query;
    encode = net.encode;
    decode = net.decode;
    normalize = net.normalize;
    error = net.error;
    contents = net.contents;
    total = net.total;
    detail = net.detail;
    detail_string = net.detail_string;
    detail_fields = net.detail_fields;
    field = net.field;
    size = net.size;
  }

-- Every request that the call adds to the log is as `P` says.
pub record Sends {S J A : Type 0} (P : Sent J → Type 0) (m : Client (Log S J) A) : Type 0 where
  pub kept : (w : World (Log S J)) → All P w.server.1 → All P (m w).1.server.1

module _ {S J : Type 0} (P : Sent J → Type 0) (net : Net S J) where
  pub settle-Sends : {A : Type 0} (r : Result A) → Sends {S = S} P (settle r)
  unfolding settle
  settle-Sends r = record { kept = λ w h. h }

  and_then-keeps :
      {A B : Type 0} (r : Result A × World (Log S J)) (f : A → Client (Log S J) B)
      → All P r.1.server.1
      → ((a : A) → Sends P (f a))
      → All P (and_then r f).1.server.1
  and_then-keeps (ok a, w) f h hf = (hf a).kept w h
  and_then-keeps (err e, w) f h hf = h

  arrival-keeps :
      (o : Option (Answer J)) (s : Log S J) (tab : Tab)
      → All P s.1
      → All P (arrival (logged net) (o, s) tab).1.server.1
  arrival-keeps none s tab h = h
  arrival-keeps (some res) s tab h = h

  pub >>=-Sends :
      {A B : Type 0} (m : Client (Log S J) A) (f : A → Client (Log S J) B)
      → Sends P m
      → ((a : A) → Sends P (f a))
      → Sends P (m >>= f)
  unfolding ◌>>=◌
  >>=-Sends m f hm hf = record { kept = λ w h. and_then-keeps (m w) f (hm.kept w h) hf }

  pub plain-Sends : (init : Sent J) → P init → Sends P (plain (logged net) init)
  unfolding plain
  plain-Sends init p = record {
    kept = λ w h. arrival-keeps (net.fetch init w.server.0).0 _ w.tab (p, h);
  }

  pub fetch_with_timeout-Sends :
      (path : Text) (cache : Cache)
      → P (public_get net path cache)
      → Sends P (fetch_with_timeout (logged net) path cache)
  unfolding fetch_with_timeout
  fetch_with_timeout-Sends path cache p = record { kept = λ w h. (p, h) }

  pub with_auth_retry-Sends :
      (init : Sent J)
      → P init
      → ((new : String) → P (record init { authorization = some new }))
      → Sends P (with_auth_retry (logged net) init)
  unfolding with_auth_retry
  with_auth_retry-Sends init p q = record {
    kept = λ w h.
        fetch_with_auth_retry-keeps (logged net).fetch (logged net).refresh (λ s. All P s.1) init
          (λ s k. (p, k)) (λ new s k. (q new, k)) (λ stored s k. k) net.in_browser w.tab w.server h;
  }

-- No answer that is kept, and may be shown to others, was asked for with a token.
abbrev pub Shareable : Cache → Option String → Type 0
Shareable (revalidate seconds tags) token = token ≡ none
Shareable no_store token = Unit
Shareable unset token = Unit
