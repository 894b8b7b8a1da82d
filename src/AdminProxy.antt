-- ===== src/AdminProxy.antt =====
-- frontend/lib/admin-proxy.ts: the address that the admin proxy forwards, and the proxy itself.
pub mod CallerIp
pub mod Forward
mod Tests
use rank_verse.Base.{
  ℕ, String, Bool, true, false, not, ◌&&◌, ◌||◌, Option, none, some, List, [], ◌∷◌, ◌++◌, map, leb,
  ◌==◌, if◌then◌else◌,
}
use mathlib.Core.List.{reverse}
use rank_verse.Base.Text.{Text, codes, text_eq, trim, lower_unit, split_on}

-- One unit of a pattern under the flag `i`: the unit itself, or one between two units.
pub data Class : Type 0 where
  unit : ℕ → Class
  between : ℕ → ℕ → Class
  either : Class → Class → Class

unfoldable pub fits : Class → ℕ → Bool
fits (unit u) c = lower_unit c == u
fits (between lo hi) c = leb lo (lower_unit c) && leb (lower_unit c) hi
fits (either p q) c = fits p c || fits q c

unfoldable pub has_prefix : List Class → Text → Bool
unfolding fits
has_prefix [] s = true
has_prefix (p ∷ ps) [] = false
has_prefix (p ∷ ps) (c ∷ s) = fits p c && has_prefix ps s

abbrev pub units : Text → List Class
units [] = []
units (c ∷ s) = unit c ∷ units s

abbrev dot : Class
dot = unit b'.'

abbrev colon : Class
colon = unit b':'

abbrev digit : Class
digit = between b'0' b'9'

abbrev hex : Class
hex = either digit (between b'a' b'f')

-- The alternatives of `INTERNAL_IP` but for `::1$`.
abbrev pub internal_prefixes : List (List Class)
internal_prefixes =
    units (codes "10.")
    ∷ units (codes "127.")
    ∷ units (codes "169.254.")
    ∷ units (codes "192.168.")
    ∷ (units (codes "172.1") ++ between b'6' b'9' ∷ dot ∷ [])
    ∷ (units (codes "172.2") ++ digit ∷ dot ∷ [])
    ∷ (units (codes "172.3") ++ between b'0' b'1' ∷ dot ∷ [])
    ∷ (units (codes "100.6") ++ between b'4' b'9' ∷ dot ∷ [])
    ∷ (units (codes "100.") ++ between b'7' b'9' ∷ digit ∷ dot ∷ [])
    ∷ (units (codes "100.1") ++ between b'0' b'1' ∷ digit ∷ dot ∷ [])
    ∷ (units (codes "100.12") ++ between b'0' b'7' ∷ dot ∷ [])
    ∷ (unit b'f' ∷ between b'c' b'd' ∷ hex ∷ hex ∷ colon ∷ [])
    ∷ (unit b'f' ∷ unit b'e' ∷ either (between b'8' b'9') (between b'a' b'b') ∷ hex ∷ colon ∷ [])
    ∷ []

unfoldable pub some_prefix : List (List Class) → Text → Bool
unfolding has_prefix
some_prefix [] s = false
some_prefix (p ∷ ps) s = has_prefix p s || some_prefix ps s

-- `INTERNAL_IP.test(hop)`
unfoldable pub is_internal : Text → Bool
unfolding some_prefix
is_internal hop = some_prefix internal_prefixes hop || text_eq (codes "::1") hop

-- `/^[0-9a-f.:]+$/i.test(hop)`
unfoldable pub all_fit : Class → Text → Bool
unfolding fits
all_fit p [] = true
all_fit p (c ∷ s) = fits p c && all_fit p s

abbrev is_nonempty : Text → Bool
is_nonempty [] = false
is_nonempty (c ∷ s) = true

unfoldable pub is_address : Text → Bool
unfolding all_fit
is_address hop = is_nonempty hop && all_fit (either hex (either dot colon)) hop

unfoldable pub is_external : Text → Bool
unfolding is_address is_internal
is_external hop = is_address hop && not (is_internal hop)

-- `.filter(Boolean)`
unfoldable pub nonempty : List Text → List Text
nonempty [] = []
nonempty ([] ∷ hops) = nonempty hops
nonempty ((c ∷ s) ∷ hops) = (c ∷ s) ∷ nonempty hops

-- `(forwardedFor ?? "").split(",").map(trim).filter(Boolean)`
unfoldable pub hops_of : Text → List Text
unfolding split_on trim nonempty
hops_of forwarded_for = nonempty (map trim (split_on b',' [] forwarded_for))

unfoldable pub find_external : List Text → Option Text
find_external [] = none
find_external (hop ∷ hops) = if is_external hop then some hop else find_external hops

-- `hops.at(-1) ?? null`
abbrev pub last_hop : List Text → Option Text
last_hop [] = none
last_hop (hop ∷ []) = some hop
last_hop (hop ∷ next ∷ hops) = last_hop (next ∷ hops)

abbrev pub or_empty : Option Text → Text
or_empty none = []
or_empty (some s) = s

abbrev pub or_last : Option Text → List Text → Option Text
or_last (some hop) hops = some hop
or_last none hops = last_hop hops

-- The loop runs from the last hop to the first.
unfoldable pub caller_ip : Option Text → Option Text
caller_ip forwarded_for =
    let hops = hops_of (or_empty forwarded_for) in or_last (find_external (reverse hops)) hops
