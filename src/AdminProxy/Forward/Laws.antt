-- ===== src/AdminProxy/Forward/Laws.antt =====
-- What the admin proxy sends and answers (frontend/lib/admin-proxy.ts, `forwardToAdmin`).
use mathlib.Core.List.{reverse}
use rank_verse.Base.{
  ℕ, ◌≡◌, refl, Option, none, some, List, [], ◌∷◌, ◌++◌, arith, if◌then◌else◌, ◌⊎◌, inl, inr,
}
use rank_verse.Base.Text.{Text}
use rank_verse.AdminProxy.{hops_of, find_external}
use rank_verse.AdminProxy.CallerIp.{caller_ip-forged}
use rank_verse.AdminProxy.Forward.{
  Incoming, Outgoing, Upstream, Reply, failure, file, json, relay, outgoing, sends_body,
  forward_to_admin,
}

abbrev pub status_of : Reply → ℕ
status_of (failure status code) = status
status_of (file status headers body) = status
status_of (json status body) = status

abbrev upstream_status : Option Upstream → ℕ
upstream_status none = 502
upstream_status (some res) = res.status

-- The status that the browser should see: 401 where nothing was sent, else that of the response.
abbrev pub expected_status : (Outgoing → Option Upstream) → Option Outgoing → ℕ
expected_status fetch none = 401
expected_status fetch (some sent) = upstream_status (fetch sent)

-- The token that was sent is the cookie's, and a body goes along with the methods that have one.
abbrev pub IsGenuine : Option Text → Incoming → Option Outgoing → Type 0
IsGenuine token request none = (token ≡ none) ⊎ (token ≡ some [])
IsGenuine token request (some sent) =
    (token ≡ some sent.bearer)
    × (sent.method ≡ request.method)
    × (sent.body ≡ (if sends_body request.method then some request.text else none))

status-relay : (res : Upstream) → status_of (relay res) ≡ res.status
unfolding relay
status-relay res = ground arith

module _ (api_base : Text) (encode : Text → Text) (fetch : Outgoing → Option Upstream) where
  -- Nothing is sent exactly where there is no token; what is sent carries the cookie's token. The
  -- reply has the response's status, 401 where nothing was sent and 502 where the backend failed.
  forward_to_admin-status :
      (token : Option Text) (prefix : Text) (path : Option (List Text)) (request : Incoming)
      → let r = forward_to_admin api_base encode fetch token prefix path request in
        IsGenuine token request r.0 × (status_of r.1 ≡ expected_status fetch r.0)
  unfolding forward_to_admin outgoing
  forward_to_admin-status none prefix path request = (inl refl, refl)
  forward_to_admin-status (some []) prefix path request = (inr refl, refl)
  forward_to_admin-status (some (c ∷ token)) prefix path request =
      let sent = outgoing api_base encode fetch (c ∷ token) prefix path request in
      ((refl, refl, refl), status-answer (fetch sent))
    where
      status-answer :
          (res : Option Upstream)
          → status_of (elim res [ none ↦ failure 502 "upstream_unreachable" | some r ↦ relay r ])
            ≡ (elim res [ none ↦ 502 | some r ↦ r.status ])
      status-answer none = refl
      status-answer (some r) = status-relay r

  outgoing-forged :
      (token prefix : Text) (path : Option (List Text)) (request : Incoming) (forged s : Text)
      {hop : Text}
      → find_external (reverse (hops_of s)) ≡ some hop
      → outgoing api_base encode fetch token prefix path
          (record request { forwarded_for = some (forged ++ b',' ∷ s) })
        ≡ outgoing api_base encode fetch token prefix path
            (record request { forwarded_for = some s })
  unfolding outgoing
  outgoing-forged token prefix path request forged s e =
      let (same, own) = caller_ip-forged forged s e in simp (same, own)

  -- A client that writes addresses of its own on the left of the chain changes neither what reaches
  -- the backend nor the reply, as long as our proxies' part names an address outside.
  forward_to_admin-forged :
      (token : Option Text) (prefix : Text) (path : Option (List Text)) (request : Incoming)
      (forged s : Text) {hop : Text}
      → find_external (reverse (hops_of s)) ≡ some hop
      → forward_to_admin api_base encode fetch token prefix path
          (record request { forwarded_for = some (forged ++ b',' ∷ s) })
        ≡ forward_to_admin api_base encode fetch token prefix path
            (record request { forwarded_for = some s })
  unfolding forward_to_admin
  forward_to_admin-forged none prefix path request forged s e = refl
  forward_to_admin-forged (some []) prefix path request forged s e = refl
  forward_to_admin-forged (some (c ∷ token)) prefix path request forged s e =
      simp (outgoing-forged (c ∷ token) prefix path request forged s e)
