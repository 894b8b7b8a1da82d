-- ===== src/Api/Client.antt =====
-- frontend/lib/api.ts: how a request is sent and its answer read, and the slugs of
-- frontend/lib/list-url.ts.
unfoldable pub use rank_verse.Api.Net.{◌>>=◌, settle, put, set_text, set_number, is_not_found_error}
pub use rank_verse.Api.Net.{
  Query, Field, text, number, flag, texts, flags, Body, payload, object, Cache, revalidate,
  no_store, unset, Init, Sent, Answer, Timed, arrived, timed_out, broken, Net, Failure, api_error,
  tournament_error, error, foreign, Result, ok, err, World, Client, and_then, or_text, truthy,
  status_message,
}
use rank_verse.Base.Text.{Text, codes}
use rank_verse.Base.{
  ℕ, String, Bool, true, false, not, Option, none, some, List, ◌++◌, if◌then◌else◌, ltb,
}
use rank_verse.Account.Retry.{Tab, is_ok, fetch_with_auth_retry}

module _ {S J : Type 0} (net : Net S J) where
  abbrev pub decode_list_slug : Text → Text
  decode_list_slug slug = elim (net.decode slug) [ none ↦ slug | some s ↦ net.normalize s ]

  unfoldable pub encode_list_slug : Text → Text
  encode_list_slug slug = net.encode (decode_list_slug slug)

  abbrev pub arrival : Option (Answer J) × S → Tab → Result (Answer J) × World S
  arrival (none, s) tab = (err foreign, record { tab = tab; server = s })
  arrival (some res, s) tab = (ok res, record { tab = tab; server = s })

  -- `fetch`
  unfoldable pub plain : Sent J → Client S (Answer J)
  plain init w = arrival (net.fetch init w.server) w.tab

  abbrev by_result : Option (Answer J) → Result (Answer J)
  by_result none = err foreign
  by_result (some res) = ok res

  -- `fetchWithAuthRetry`
  unfoldable pub with_auth_retry : Sent J → Client S (Answer J)
  with_auth_retry init w =
      let out = fetch_with_auth_retry net.fetch net.refresh net.in_browser init w.tab w.server in
      (by_result out.result, record { tab = out.tab; server = out.server })

  abbrev pub by_timed : Text → Timed J → Result (Answer J)
  by_timed path (arrived res) = ok res
  by_timed path timed_out = err (error (codes "CinemaGozin API timeout (8s) on " ++ path))
  by_timed path broken = err foreign

  abbrev pub public_get : Text → Cache → Sent J
  public_get path cache = record {
    path = path;
    authorization = none;
    rest = record {
      method = codes "GET";
      json_content = false;
      guest = none;
      body = none;
      cache = cache;
    };
  }

  unfoldable pub fetch_with_timeout : Text → Cache → Client S (Answer J)
  fetch_with_timeout path cache w =
      let r = net.fetch_timed (public_get path cache) w.server in
      (by_timed path r.0, record { tab = w.tab; server = r.1 })

  -- `await res.json()`
  abbrev pub parse : Answer J → Result J
  parse res = elim res.body [ none ↦ err foreign | some json ↦ ok json ]

  abbrev no_error : J → Option Text → Result J
  no_error json none = ok json
  no_error json (some message) = err (error message)

  abbrev pub checked : Result J → Result J
  checked (ok json) = no_error json (net.error json)
  checked (err e) = err e

  -- A response of `fetchFullEnvelope`: its status first, then its error.
  unfoldable pub open_envelope : Text → Answer J → Result J
  open_envelope path res =
      if not (is_ok res.status)
      then err (api_error res.status (status_message res.status path))
      else checked (parse res)

  abbrev refused : Bool → Text → J → Option Text → Result J
  refused succeeded other json (some message) = err (error (or_text (some message) other))
  refused succeeded other json none = if succeeded then ok json else err (error other)

  abbrev pub accepted : Bool → Text → Result J → Result J
  accepted succeeded other (ok json) = refused succeeded other json (net.error json)
  accepted succeeded other (err e) = err e

  -- `const json = await res.json(); if (!res.ok || json.error) throw new Error(message || other)`
  unfoldable pub accept_envelope : Text → Answer J → Result J
  accept_envelope other res = accepted (is_ok res.status) other (parse res)

  abbrev detail_or : (J → Option Text) → Text → Option J → Result J
  detail_or read other none = err (error other)
  detail_or read other (some body) = err (error (or_text (read body) other))

  -- The raw answers of the battles: `if (!res.ok) throw new Error(body?.detail || other)`.
  unfoldable pub accept_raw : (J → Option Text) → Text → Answer J → Result J
  accept_raw read other res = if is_ok res.status then parse res else detail_or read other res.body

  abbrev pub cache_for : ℕ → List Text → Cache
  cache_for seconds tags = if ltb 0 seconds then revalidate seconds tags else no_store

  unfoldable pub fetch_full_envelope : Text → ℕ → List Text → Client S J
  unfolding fetch_with_timeout open_envelope
  fetch_full_envelope path seconds tags = do
    res ← fetch_with_timeout path (cache_for seconds tags)
    settle (open_envelope path res)

  unfoldable pub fetch_envelope : Text → ℕ → List Text → Client S J
  unfolding fetch_full_envelope
  fetch_envelope path seconds tags = do
    json ← fetch_full_envelope path seconds tags
    settle (ok (net.contents json))

  unfoldable pub post_envelope : Text → Body J → Client S J
  unfolding plain accept_envelope
  post_envelope path body = do
    res ← plain record {
      path = path;
      authorization = none;
      rest = record {
        method = codes "POST";
        json_content = true;
        guest = none;
        body = some body;
        cache = unset;
      };
    }
    json ← settle (accept_envelope (status_message res.status path) res)
    settle (ok (net.contents json))

  unfoldable pub auth_fetch_envelope : Text → String → Text → Option (Body J) → Client S J
  unfolding with_auth_retry accept_envelope
  auth_fetch_envelope path token method body = do
    res ← with_auth_retry record {
      path = path;
      authorization = some token;
      rest = record {
        method = method;
        json_content = true;
        guest = none;
        body = body;
        cache = no_store;
      };
    }
    settle (accept_envelope (status_message res.status path) res)

  unfoldable pub auth_fetch : Text → String → Text → Option (Body J) → Client S J
  unfolding auth_fetch_envelope
  auth_fetch path token method body = do
    json ← auth_fetch_envelope path token method body
    settle (ok (net.contents json))
