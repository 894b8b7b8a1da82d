-- ===== src/ListPage/Votes/Agree.antt =====
-- What the vote buttons of frontend/components/list-detail/ItemVoteButtons.tsx show against the votes
-- that the server holds.
use rank_verse.Base.{refl}
use rank_verse.Base.{[]}
use rank_verse.ListPage.Votes.{state_of}
use rank_verse.Base.{◌∷◌}
use rank_verse.ListPage.Votes.{answered}
use rank_verse.ListPage.Votes.{vote}
use rank_verse.ListPage.Votes.{Buttons}
use rank_verse.Base.{List}
use rank_verse.Base.{ℕ, ◌+◌, ◌≡◌, Bool, true, false, Option, none, some, arith}
use rank_verse.ListPage.Votes.{
  VoteState, is_vote, one_if, next_state, Request, remove_vote, cast_vote, request_of,
}

-- The votes of one item: those of the others, and the viewer's.
pub record Votes : Type 0 where
  pub likes : ℕ
  pub dislikes : ℕ
  pub own : Option Bool

-- How the server reports them.
abbrev pub shown : Votes → VoteState
shown v = record {
  like_count = v.likes + one_if (is_vote true v.own);
  dislike_count = v.dislikes + one_if (is_vote false v.own);
  my_vote = v.own;
}

abbrev pub serve : Request → Votes → Votes
serve remove_vote v = record v { own = none }
serve (cast_vote is_like) v = record v { own = some is_like }

abbrev votes_of : ℕ → ℕ → Option Bool → Votes
votes_of likes dislikes own = record { likes = likes; dislikes = dislikes; own = own }

by_own :
    (likes dislikes : ℕ) (own : Option Bool) (is_like : Bool)
    → next_state (shown (votes_of likes dislikes own)) is_like
      ≡ shown (
          serve
            (request_of (shown (votes_of likes dislikes own)) is_like)
            (votes_of likes dislikes own))
unfolding next_state request_of
by_own likes dislikes none true = ground arith
by_own likes dislikes none false = ground arith
by_own likes dislikes (some true) true = ground arith
by_own likes dislikes (some true) false = ground arith
by_own likes dislikes (some false) true = ground arith
by_own likes dislikes (some false) false = ground arith

next_state-shown :
    (v : Votes) (is_like : Bool)
    → next_state (shown v) is_like ≡ shown (serve (request_of (shown v) is_like) v)
next_state-shown v is_like = by_own v.likes v.dislikes v.own is_like

-- The buttons and the server; `request` is the one in flight.
pub record Page : Type 0 where
  pub buttons : Buttons
  pub votes : Votes
  pub request : Option Request

pub data Move : Type 0 where
  tap : Bool → Move
  accepted refused : Move

abbrev tap_page : Option Request → Bool → Page → Page
tap_page (some request) is_like p = record p { buttons = vote true false is_like p.buttons }
tap_page none is_like p = record p {
  buttons = vote true false is_like p.buttons;
  request = some (request_of (state_of p.buttons) is_like);
}

abbrev accept : Option Request → Page → Page
accept none p = p
accept (some request) p =
    let votes = serve request p.votes in
    record { buttons = answered (some (shown votes)) p.buttons; votes = votes; request = none }

unfoldable pub step : Move → Page → Page
unfolding vote answered request_of
step (tap is_like) p = tap_page p.request is_like p
step accepted p = accept p.request p
step refused p = record p { buttons = answered none p.buttons; request = none }

unfoldable pub run : List Move → Page → Page
unfolding step
run [] p = p
run (m ∷ ms) p = run ms (step m p)

-- With no request in flight the buttons show what the server holds; with one, they show what the
-- server will hold if it accepts, and remember what it holds.
abbrev pub Foretells : Option Request → Buttons → Votes → Type 0
Foretells none b v = (b.sent ≡ none) × (state_of b ≡ shown v)
Foretells (some request) b v = (b.sent ≡ some (shown v)) × (state_of b ≡ shown (serve request v))

vote-busy :
    (is_like : Bool) (b : Buttons) (prev : VoteState)
    → b.sent ≡ some prev
    → vote true false is_like b ≡ b
unfolding vote
vote-busy is_like b prev e = rw e refl

tap-Foretells :
    (request : Option Request) (is_like : Bool) (b : Buttons) (v : Votes)
    → Foretells request b v
    → Foretells
        (tap_page request is_like (record { buttons = b; votes = v; request = request })).request
        (tap_page request is_like (record { buttons = b; votes = v; request = request })).buttons
        v
unfolding vote
tap-Foretells none is_like b v (e, f) = rw (e, f) (refl, next_state-shown v is_like)
tap-Foretells (some request) is_like b v (e, f) = rw (vote-busy is_like b (shown v) e) (e, f)

abbrev page : Option Request → Buttons → Votes → Page
page request b v = record { buttons = b; votes = v; request = request }

abbrev pub IsHonest : Page → Type 0
IsHonest p = Foretells p.request p.buttons p.votes

step-IsHonest :
    (m : Move) (request : Option Request) (b : Buttons) (v : Votes)
    → Foretells request b v
    → IsHonest (step m (page request b v))
unfolding step answered
step-IsHonest (tap is_like) none b v h = tap-Foretells none is_like b v h
step-IsHonest (tap is_like) (some request) b v h = tap-Foretells (some request) is_like b v h
step-IsHonest accepted none b v h = h
step-IsHonest accepted (some request) b v (e, f) = rw e (refl, refl)
step-IsHonest refused none b v (e, f) = rw e (refl, f)
step-IsHonest refused (some request) b v (e, f) = rw e (refl, refl)

run-keeps :
    (ms : List Move) (request : Option Request) (b : Buttons) (v : Votes)
    → Foretells request b v
    → IsHonest (run ms (page request b v))
unfolding run
run-keeps [] request b v h = h
run-keeps (m ∷ ms) request b v h =
    let p = step m (page request b v) in
    run-keeps ms p.request p.buttons p.votes (step-IsHonest m request b v h)

-- The page as the server sends it.
abbrev pub opened : Votes → Page
opened v = page none (record { viewer = shown v; local = none; sent = none; has_error = false }) v

-- Whatever is tapped, at any time, and whichever requests the server refuses: once no request is in
-- flight, the buttons show the votes that the server holds; and while one is, what the server will hold
-- if it accepts.
pub run-IsHonest : (ms : List Move) (v : Votes) → IsHonest (run ms (opened v))
run-IsHonest ms v = run-keeps ms none _ v (refl, refl)
