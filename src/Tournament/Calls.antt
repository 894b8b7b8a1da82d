-- ===== src/Tournament/Calls.antt =====
-- frontend/lib/tournament.ts: `call`, `callEnvelope`, `qs` and `tournamentApi`. The parameters of a
-- read are the pairs of the object in the caller's order; a number is given by its decimal text.
use rank_verse.Base.Text.{Text, codes}
use rank_verse.Base.{ℕ, String, Bool, Option, none, some, List, [], ◌∷◌, ◌++◌, if◌then◌else◌}
use rank_verse.Labels.Digits.{decimal}
use rank_verse.Api.Client.{
  Net, Client, no_store, Result, settle, ok, err, error, ◌>>=◌, plain, public_get, accept_envelope,
  auth_fetch_envelope, truthy, Body, payload, object, text, number, texts,
}
use rank_verse.Api.Titles.{Page, to_page}
use rank_verse.Api.Lists.{entries_query}
use rank_verse.Api.Client.{tournament_error}

abbrev pub Params : Type 0
Params = List (Text × Option Text)

-- `follow ? "PUT" : "DELETE"`
abbrev follow_method : Bool → Text
follow_method follow = if follow then codes "PUT" else codes "DELETE"

abbrev question : Text → Text
question [] = []
question (c ∷ s) = codes "?" ++ c ∷ s

module _ {S J : Type 0} (net : Net S J) where
  -- `qs`: `undefined`, `null` and "" are left out.
  unfoldable pub qs : Params → Text
  unfolding entries_query
  qs params = question (net.query (entries_query params []))

  abbrev pub guest_message : Text
  guest_message =
      codes
        "\u{62e}\u{637}\u{627} \u{62f}\u{631} \u{62f}\u{631}\u{6cc}\u{627}\u{641}\u{62a} \u{627}\u{637}\u{644}\u{627}\u{639}\u{627}\u{62a}"

  abbrev as_tournament_error : ℕ → Result J → Result J
  as_tournament_error status (err (error message)) = err (tournament_error status message)
  as_tournament_error status r = r

  abbrev pub guest_read : Text → Client S J
  guest_read path = do
    res ← plain net (public_get net (codes "/battles" ++ path) no_store)
    settle (as_tournament_error res.status (accept_envelope net guest_message res))

  -- By the token; without one, the method and the body are not looked at.
  abbrev pub by_token : Text → Option String → Text → Option (Body J) → Client S J
  by_token path none method body = guest_read path
  by_token path (some token) method body =
      auth_fetch_envelope net (codes "/battles" ++ path) token method body

  unfoldable pub call_envelope : Text → Option String → Text → Option (Body J) → Client S J
  call_envelope path token method body = by_token path (truthy token) method body

  unfoldable pub call : Text → Option String → Text → Option (Body J) → Client S J
  unfolding call_envelope
  call path token method body = do
    json ← call_envelope path token method body
    settle (ok (net.contents json))

  abbrev pub read : Text → Option String → Client S J
  read path token = call path token (codes "GET") none

  abbrev pub send : Text → String → Text → Option (Body J) → Client S J
  send path token method body = call path (some token) method body

  abbrev at : Text → Text → Text
  at slug action = codes "/" ++ slug ++ action

  -- `{ ...p, page_size: n }`: a `page_size` of `p` would be replaced, and its readers give none.
  abbrev sized : Params → ℕ → Params
  sized p n = p ++ (codes "page_size", some (decimal n)) ∷ []

  unfoldable pub list : Option String → Params → Client S J
  list token p = read (qs (sized p 12)) token

  unfoldable pub list_page : Option String → Params → Client S (Page J)
  list_page token p = do
    json ← call_envelope (qs p) token (codes "GET") none
    settle (ok (to_page net json))

  unfoldable pub get : Text → Option String → Client S J
  get slug token = read (at slug []) token

  unfoldable pub create : String → J → Client S J
  create token body = send [] token (codes "POST") (some (payload body))

  unfoldable pub update : String → Text → J → Client S J
  update token slug body = send (at slug []) token (codes "PATCH") (some (payload body))

  unfoldable pub set_entries : String → Text → List Text → Client S J
  set_entries token slug entity_ids =
      send (at slug (codes "/entries")) token (codes "PUT")
        (some (object ((codes "entity_ids", texts entity_ids) ∷ [])))

  unfoldable pub publish : String → Text → J → Client S J
  publish token slug body =
      send (at slug (codes "/publish")) token (codes "POST") (some (payload body))

  unfoldable pub pick : String → Text → J → Client S J
  pick token slug body = send (at slug (codes "/picks")) token (codes "POST") (some (payload body))

  unfoldable pub vote : String → Text → Text → Text → Client S J
  vote token slug match_id entity_id =
      send (at slug (codes "/matches/" ++ match_id ++ codes "/vote")) token (codes "POST")
        (some (object ((codes "entity_id", text entity_id) ∷ [])))

  unfoldable pub follow : String → Text → Bool → Client S J
  follow token slug following =
      send (at slug (codes "/follow")) token (follow_method following) none

  unfoldable pub featured : Option String → Client S J
  featured token = read (codes "/featured") token

  unfoldable pub featured_random : Option String → Option Text → Client S J
  featured_random token exclude =
      read (codes "/featured/random" ++ qs ((codes "exclude", exclude) ∷ [])) token

  unfoldable pub mine : String → Params → Client S J
  mine token p = read (codes "/mine" ++ qs (sized p 12)) (some token)

  abbrev total_or_size : J → Option ℕ
  total_or_size json = elim (net.total json) [
    | none ↦ some (net.size (net.contents json))
    | some n ↦ some n
  ]

  unfoldable pub mine_page : String → Params → Client S (Page J)
  mine_page token p = do
    json ← call_envelope (codes "/mine" ++ qs p) (some token) (codes "GET") none
    settle (ok record { items = net.contents json; total = total_or_size json })

  unfoldable pub close_round : String → Text → Client S J
  close_round token slug = send (at slug (codes "/close-round")) token (codes "POST") none

  unfoldable pub finish : String → Text → Client S J
  finish token slug = send (at slug (codes "/finish")) token (codes "POST") none

  unfoldable pub extend : String → Text → ℕ → Client S J
  extend token slug seconds =
      send (at slug (codes "/extend")) token (codes "POST")
        (some (object ((codes "seconds", number seconds) ∷ [])))

  unfoldable pub set_visibility : String → Text → Text → Client S J
  set_visibility token slug visibility =
      send (at slug (codes "/visibility")) token (codes "POST")
        (some (object ((codes "visibility", text visibility) ∷ [])))

  unfoldable pub remove : String → Text → Client S J
  remove token slug = send (at slug []) token (codes "DELETE") none

  unfoldable pub candidates : String → Params → Client S J
  candidates token p = read (codes "/candidates" ++ qs (sized p 24)) (some token)

  unfoldable pub genres : String → Client S J
  genres token = read (codes "/filter-genres") (some token)
