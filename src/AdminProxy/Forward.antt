-- ===== src/AdminProxy/Forward.antt =====
-- frontend/lib/admin-proxy.ts, `forwardToAdmin`. The backend's address, `encodeURIComponent` and the
-- fetch, with its responses, are the section's parameters; a fetch that throws gives `none`. The
-- request that is sent comes back beside the reply.
pub mod Laws
use rank_verse.Base.{
  ℕ, ◌≡◌, refl, String, Bool, true, false, not, ◌&&◌, ◌||◌, Option, none, some, List, [], ◌∷◌, ◌++◌,
  map, arith, ◌==◌, if◌then◌else◌, str_eq, Option-cases, inl, inr,
}
use rank_verse.Base.Text.{Text, codes, join}
use rank_verse.AdminProxy.{caller_ip}

pub record Incoming : Type 0 where
  pub method : String
  pub search : Text
  pub forwarded_for : Option Text
  pub user_agent : Option Text
  pub text : Text

pub record Outgoing : Type 0 where
  pub url : Text
  pub method : String
  pub bearer : Text
  pub client_ip : Option Text
  pub user_agent : Option Text
  pub body : Option Text

-- `json` is `none` where the body does not parse.
pub record Upstream : Type 0 where
  pub status : ℕ
  pub content_type : Option Text
  pub content_disposition : Option Text
  pub cache_control : Option Text
  pub body : Text
  pub json : Option Text

pub data Reply : Type 0 where
  failure : ℕ → String → Reply
  file : ℕ → List (Option Text) → Text → Reply
  json : ℕ → Text → Reply

pub starts_with : Text → Text → Bool
starts_with [] s = true
starts_with (p ∷ ps) [] = false
starts_with (p ∷ ps) (c ∷ s) = p == c && starts_with ps s

-- An empty header is not copied, as an absent one.
abbrev truthy : Option Text → Option Text
truthy none = none
truthy (some []) = none
truthy (some (c ∷ s)) = some (c ∷ s)

abbrev or_blank : Option Text → Text
or_blank none = []
or_blank (some s) = s

-- The reply to a response that arrived.
abbrev relay_json : ℕ → Option Text → Reply
relay_json status none = failure status "bad_response"
relay_json status (some body) = json status body

pub relay : Upstream → Reply
relay res =
    if starts_with (codes "attachment") (or_blank res.content_disposition)
    then file res.status
        (truthy res.content_type ∷ truthy res.content_disposition ∷ truthy res.cache_control ∷ [])
        res.body
    else relay_json res.status res.json

abbrev answer : Option Upstream → Reply
answer none = failure 502 "upstream_unreachable"
answer (some res) = relay res

abbrev pub sends_body : String → Bool
sends_body method = not (str_eq method "GET") && not (str_eq method "DELETE")

module _ (api_base : Text) (encode : Text → Text) (fetch : Outgoing → Option Upstream) where
  abbrev suffix : Option (List Text) → Text
  suffix none = []
  suffix (some []) = []
  suffix (some (p ∷ ps)) = b'/' ∷ join (codes "/") (map encode (p ∷ ps))

  pub outgoing : Text → Text → Option (List Text) → Incoming → Outgoing
  outgoing token prefix path request = record {
    url = api_base ++ codes "/admin/" ++ prefix ++ suffix path ++ request.search;
    method = request.method;
    bearer = token;
    client_ip = truthy (caller_ip request.forwarded_for);
    user_agent = truthy request.user_agent;
    body = if sends_body request.method then some request.text else none;
  }

  -- An empty cookie is no token.
  pub forward_to_admin :
      Option Text → Text → Option (List Text) → Incoming → Option Outgoing × Reply
  forward_to_admin none prefix path request = (none, failure 401 "unauthorized")
  forward_to_admin (some []) prefix path request = (none, failure 401 "unauthorized")
  forward_to_admin (some (c ∷ token)) prefix path request =
      let sent = outgoing (c ∷ token) prefix path request in (some sent, answer (fetch sent))
