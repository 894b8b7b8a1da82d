-- ===== src/AdminProxy/CallerIp.antt =====
-- A client cannot choose the address that reaches the audit log
-- (frontend/lib/admin-proxy.ts, `callerIp`).
use mathlib.Core.List.{reverse, reverse-append, reverse-cons, append-nil, append_assoc, map-append}
use rank_verse.Base.{
  ℕ, ◌≡◌, refl, ap, ◌∙◌, true, false, none, some, List, [], ◌∷◌, ◌++◌, arith, Bool-cases, inl, inr,
  All,
}
use rank_verse.Base.Text.{Text, split_on}
use rank_verse.AdminProxy.{is_external, nonempty, hops_of, find_external, last_hop, caller_ip}

split_on-append :
    (sep : ℕ) (cur s t : Text)
    → split_on sep cur (s ++ sep ∷ t) ≡ split_on sep cur s ++ split_on sep [] t
unfolding split_on
split_on-append sep cur [] t = ground arith
split_on-append sep cur (c ∷ s) t =
    ground (arith, split_on-append sep [] s t, split_on-append sep (cur ++ c ∷ []) s t)

nonempty-append : (xs ys : List Text) → nonempty (xs ++ ys) ≡ nonempty xs ++ nonempty ys
unfolding nonempty
nonempty-append [] ys = refl
nonempty-append ([] ∷ xs) ys = nonempty-append xs ys
nonempty-append ((c ∷ s) ∷ xs) ys = ap (λ r. (c ∷ s) ∷ r) (nonempty-append xs ys)

hops_of-append : (s t : Text) → hops_of (s ++ b',' ∷ t) ≡ hops_of s ++ hops_of t
unfolding hops_of
hops_of-append s t = simp (split_on-append b',' [] s t, map-append, nonempty-append)

find_external-append :
    (xs ys : List Text) {hop : Text}
    → find_external xs ≡ some hop
    → find_external (xs ++ ys) ≡ some hop
unfolding find_external
find_external-append [] ys e = cc
find_external-append (x ∷ xs) ys {hop} e = elim (Bool-cases (is_external x)) [
  | inl b ↦ ground arith
  | inr b ↦ rw b (find_external-append xs ys (rw (b, find_external) at e))
]

-- Whatever a client writes on the left of the chain, the result is the one that our proxies' part
-- gives, as long as that part names an address outside our own infrastructure.
pub caller_ip-forged :
    (forged s : Text) {hop : Text}
    → find_external (reverse (hops_of s)) ≡ some hop
    → (caller_ip (some (forged ++ b',' ∷ s)) ≡ some hop) × (caller_ip (some s) ≡ some hop)
unfolding caller_ip
caller_ip-forged forged s {hop} e =
    let found : find_external (reverse (hops_of (forged ++ b',' ∷ s))) ≡ some hop =
      rw (hops_of-append, reverse-append) (find_external-append (reverse (hops_of s)) _ e) in
    (rw (found, caller_ip), rw (e, caller_ip))

abbrev pub NoneExternal : List Text → Type 0
NoneExternal hops = All (λ hop. is_external hop ≡ false) hops

NoneExternal-append :
    (xs ys : List Text) → NoneExternal xs → NoneExternal ys → NoneExternal (xs ++ ys)
NoneExternal-append [] ys h k = k
NoneExternal-append (x ∷ xs) ys h k = (h.0, NoneExternal-append xs ys h.1 k)

NoneExternal-reverse : (xs : List Text) → NoneExternal xs → NoneExternal (reverse xs)
NoneExternal-reverse [] h = tt
NoneExternal-reverse (x ∷ xs) h =
    rw reverse-cons
      (NoneExternal-append (reverse xs) (x ∷ []) (NoneExternal-reverse xs h.1) (h.0, tt))

find_external_skip :
    (xs ys : List Text) → NoneExternal xs → find_external (xs ++ ys) ≡ find_external ys
unfolding find_external
find_external_skip [] ys h = refl
find_external_skip (x ∷ xs) ys h = rw h.0 (find_external_skip xs ys h.1)

-- The result is the rightmost hop that is an address outside our own infrastructure.
caller_ip-rightmost :
    (s : Text) (before after : List Text) (hop : Text)
    → hops_of s ≡ before ++ hop ∷ after
    → is_external hop ≡ true
    → NoneExternal after
    → caller_ip (some s) ≡ some hop
unfolding caller_ip
caller_ip-rightmost s before after hop e x h =
    let found : find_external (reverse (hops_of s)) ≡ some hop =
      rw (e, reverse-append, reverse-cons, append_assoc)
        (find_external_skip (reverse after) (hop ∷ reverse before) (NoneExternal-reverse after h)
          ∙ (unfold find_external in rw x)) in
    rw (found, caller_ip)

-- Where no hop is such an address, the result is the last hop, or null for an empty chain.
pub caller_ip_fallback :
    (s : Text) → NoneExternal (hops_of s) → caller_ip (some s) ≡ last_hop (hops_of s)
unfolding caller_ip
caller_ip_fallback s h =
    let found : find_external (reverse (hops_of s)) ≡ none =
      (rw append-nil at
        (find_external_skip (reverse (hops_of s)) [] (NoneExternal-reverse (hops_of s) h)))
      ∙ (unfold find_external in refl) in
    rw (found, caller_ip)
