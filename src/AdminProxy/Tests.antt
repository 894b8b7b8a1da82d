-- ===== src/AdminProxy/Tests.antt =====
-- The admin proxy at concrete inputs.
use rank_verse.Base.{◌≡◌, refl, Option, none, some, [], ◌∷◌, ◌++◌}
use rank_verse.Base.Text.{Text, codes, split_on, trim, strip_start, strip_end}
use rank_verse.AdminProxy.{caller_ip, hops_of, find_external, is_external}
use rank_verse.AdminProxy.CallerIp.{caller_ip-forged, caller_ip_fallback}
use rank_verse.AdminProxy.Forward.{Incoming, Outgoing, Upstream}

-- What nginx and the frontend's hop make of a request from 5.6.7.8.
abbrev chain : Text
chain = codes "5.6.7.8, 10.0.0.2"

caller_ip_chain : caller_ip (some (codes "1.1.1.1, 5.6.7.8, 10.0.0.2")) ≡ some (codes "5.6.7.8")
unfolding caller_ip hops_of find_external split_on trim strip_start strip_end is_external
caller_ip_chain = refl

caller_ip-forged_example :
    (caller_ip (some (codes "1.1.1.1" ++ b',' ∷ chain)) ≡ some (codes "5.6.7.8"))
    × (caller_ip (some chain) ≡ some (codes "5.6.7.8"))
unfolding hops_of find_external split_on trim strip_start strip_end is_external
caller_ip-forged_example = caller_ip-forged (codes "1.1.1.1") chain refl

caller_ip_fallback_example : caller_ip (some (codes "10.0.0.2")) ≡ some (codes "10.0.0.2")
unfolding hops_of split_on trim strip_start strip_end is_external
caller_ip_fallback_example = caller_ip_fallback (codes "10.0.0.2") (refl, tt)

abbrev request : Incoming
request = record {
  method = "POST";
  search = [];
  forwarded_for = some chain;
  user_agent = none;
  text = codes "{}";
}

abbrev accept : Outgoing → Option Upstream
accept sent = some (record {
  status = 201;
  content_type = none;
  content_disposition = none;
  cache_control = none;
  body = codes "{}";
  json = some (codes "{}");
})

abbrev same : Text → Text
same s = s
