-- ===== src/ListPage/Votes.antt =====
-- frontend/components/list-detail/ItemVoteButtons.tsx: a vote shown at once, and taken back when the
-- server refuses it. A count counts the viewer's own vote, so what is taken off it is there.
pub mod Agree
use rank_verse.Base.{ℕ, ◌+◌, ◌-◌, Bool, true, false, not, ◌||◌, Option, none, some, if◌then◌else◌}

pub record VoteState : Type 0 where
  pub like_count : ℕ
  pub dislike_count : ℕ
  pub my_vote : Option Bool

-- `vote === isLike`
abbrev pub is_vote : Bool → Option Bool → Bool
is_vote is_like none = false
is_vote true (some vote) = vote
is_vote false (some vote) = not vote

abbrev pub one_if : Bool → ℕ
one_if b = if b then 1 else 0

abbrev pub recount : ℕ → Bool → Option Bool → Option Bool → ℕ
recount n vote before after = n - one_if (is_vote vote before) + one_if (is_vote vote after)

unfoldable pub next_vote : Option Bool → Bool → Option Bool
next_vote my_vote is_like = if is_vote is_like my_vote then none else some is_like

unfoldable pub next_state : VoteState → Bool → VoteState
unfolding next_vote
next_state state is_like =
    let my_vote = next_vote state.my_vote is_like in
    record {
      like_count = recount state.like_count true state.my_vote my_vote;
      dislike_count = recount state.dislike_count false state.my_vote my_vote;
      my_vote = my_vote;
    }

-- The request that a tap sends: `removeListItemVote` or `voteListItem`.
pub data Request : Type 0 where
  remove_vote : Request
  cast_vote : Bool → Request

unfoldable pub request_of : VoteState → Bool → Request
request_of state is_like = if is_vote is_like state.my_vote then remove_vote else cast_vote is_like

-- `viewer` is the page's item, else the `initial` one; `sent` is the state that a request in flight
-- left, `prev`.
pub record Buttons : Type 0 where
  pub viewer : VoteState
  pub local : Option VoteState
  pub sent : Option VoteState
  pub has_error : Bool

abbrev pub or_viewer : VoteState → Option VoteState → VoteState
or_viewer viewer none = viewer
or_viewer viewer (some local) = local

abbrev pub state_of : Buttons → VoteState
state_of s = or_viewer s.viewer s.local

abbrev pub is_busy : Option VoteState → Bool
is_busy none = false
is_busy (some prev) = true

-- `vote`, up to its request; without a token, while busy or before the item is saved, nothing happens.
unfoldable pub vote : Bool → Bool → Bool → Buttons → Buttons
unfolding next_state
vote has_token pending is_like s =
    if not has_token || (is_busy s.sent || pending) then s else record s {
      local = some (next_state (state_of s) is_like);
      sent = some (state_of s);
      has_error = false;
    }

abbrev by_sent : Option VoteState → Option VoteState → Buttons → Buttons
by_sent result none s = s
by_sent (some result) (some prev) s = record s { local = some result; sent = none }
by_sent none (some prev) s = record s { local = some prev; sent = none; has_error = true }

-- The request's answer: the server's state, or `none` where it failed.
unfoldable pub answered : Option VoteState → Buttons → Buttons
answered result s = by_sent result s.sent s

-- A new item from the page's provider drops the local state.
unfoldable pub refetched : VoteState → Buttons → Buttons
refetched viewer s = record s { viewer = viewer; local = none }
