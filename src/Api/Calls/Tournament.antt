-- ===== src/Api/Calls/Tournament.antt =====
-- The calls of frontend/lib/tournament.ts as data, and that none of them asks for an answer to be kept with a
-- token.
use rank_verse.Base.{ℕ, String, Bool, Option, none, some, List}
use rank_verse.Base.Text.{Text}
use rank_verse.Api.Client.{truthy, Net, Client, Body}
use rank_verse.Api.Sends.{logged, Sends, plain-Sends}
use rank_verse.Api.Private.{
  IsShareable, discard, discard-Sends, then_settle, auth_fetch_envelope-Sends,
}
use rank_verse.Tournament.Calls
use rank_verse.Tournament.Calls.{Params}

pub data TournamentCall (J : Type 0) : Type 0 where
  list : Option String → Params → TournamentCall J
  list_page : Option String → Params → TournamentCall J
  get : Text → Option String → TournamentCall J
  create : String → J → TournamentCall J
  update : String → Text → J → TournamentCall J
  set_entries : String → Text → List Text → TournamentCall J
  publish : String → Text → J → TournamentCall J
  pick : String → Text → J → TournamentCall J
  vote : String → Text → Text → Text → TournamentCall J
  follow : String → Text → Bool → TournamentCall J
  featured : Option String → TournamentCall J
  featured_random : Option String → Option Text → TournamentCall J
  mine : String → Params → TournamentCall J
  mine_page : String → Params → TournamentCall J
  close_round : String → Text → TournamentCall J
  finish : String → Text → TournamentCall J
  extend : String → Text → ℕ → TournamentCall J
  set_visibility : String → Text → Text → TournamentCall J
  remove : String → Text → TournamentCall J
  candidates : String → Params → TournamentCall J
  genres : String → TournamentCall J

module _ {S J : Type 0} (net : Net S J) where
  unfoldable pub run_tournament : TournamentCall J → Client S (Unit {0})
  run_tournament (list a b) = discard (Calls.list net a b)
  run_tournament (list_page a b) = discard (Calls.list_page net a b)
  run_tournament (get a b) = discard (Calls.get net a b)
  run_tournament (create a b) = discard (Calls.create net a b)
  run_tournament (update a b c) = discard (Calls.update net a b c)
  run_tournament (set_entries a b c) = discard (Calls.set_entries net a b c)
  run_tournament (publish a b c) = discard (Calls.publish net a b c)
  run_tournament (pick a b c) = discard (Calls.pick net a b c)
  run_tournament (vote a b c d) = discard (Calls.vote net a b c d)
  run_tournament (follow a b c) = discard (Calls.follow net a b c)
  run_tournament (featured a) = discard (Calls.featured net a)
  run_tournament (featured_random a b) = discard (Calls.featured_random net a b)
  run_tournament (mine a b) = discard (Calls.mine net a b)
  run_tournament (mine_page a b) = discard (Calls.mine_page net a b)
  run_tournament (close_round a b) = discard (Calls.close_round net a b)
  run_tournament (finish a b) = discard (Calls.finish net a b)
  run_tournament (extend a b c) = discard (Calls.extend net a b c)
  run_tournament (set_visibility a b c) = discard (Calls.set_visibility net a b c)
  run_tournament (remove a b) = discard (Calls.remove net a b)
  run_tournament (candidates a b) = discard (Calls.candidates net a b)
  run_tournament (genres a) = discard (Calls.genres net a)

module _ {S J : Type 0} (net : Net S J) where
  by_token-Sends :
      (path : Text) (token : Option String) (method : Text) (body : Option (Body J))
      → Sends IsShareable (Calls.by_token (logged net) path token method body)
  by_token-Sends path none method body = then_settle net _ _ (plain-Sends IsShareable net _ tt)
  by_token-Sends path (some token) method body = auth_fetch_envelope-Sends net _ _ _ _

  call_envelope-Sends :
      (path : Text) (token : Option String) (method : Text) (body : Option (Body J))
      → Sends IsShareable (Calls.call_envelope (logged net) path token method body)
  unfolding Calls.call_envelope
  call_envelope-Sends path token method body = by_token-Sends path (truthy token) method body

  call-Sends :
      (path : Text) (token : Option String) (method : Text) (body : Option (Body J))
      → Sends IsShareable (Calls.call (logged net) path token method body)
  unfolding Calls.call
  call-Sends path token method body =
      then_settle net _ _ (call_envelope-Sends path token method body)

module _ {S J : Type 0} (net : Net S J) where
  pub run_tournament-Sends :
      (call : TournamentCall J) → Sends IsShareable (run_tournament (logged net) call)
  unfolding run_tournament Calls.list Calls.list_page Calls.get Calls.create Calls.update
      Calls.set_entries Calls.publish Calls.pick Calls.vote Calls.follow Calls.featured
      Calls.featured_random Calls.mine Calls.mine_page Calls.close_round Calls.finish Calls.extend
      Calls.set_visibility Calls.remove Calls.candidates Calls.genres
  run_tournament-Sends (list a b) = discard-Sends net _ (call-Sends net _ _ _ _)
  run_tournament-Sends (list_page a b) =
      discard-Sends net _ (then_settle net _ _ (call_envelope-Sends net _ _ _ _))
  run_tournament-Sends (get a b) = discard-Sends net _ (call-Sends net _ _ _ _)
  run_tournament-Sends (create a b) = discard-Sends net _ (call-Sends net _ _ _ _)
  run_tournament-Sends (update a b c) = discard-Sends net _ (call-Sends net _ _ _ _)
  run_tournament-Sends (set_entries a b c) = discard-Sends net _ (call-Sends net _ _ _ _)
  run_tournament-Sends (publish a b c) = discard-Sends net _ (call-Sends net _ _ _ _)
  run_tournament-Sends (pick a b c) = discard-Sends net _ (call-Sends net _ _ _ _)
  run_tournament-Sends (vote a b c d) = discard-Sends net _ (call-Sends net _ _ _ _)
  run_tournament-Sends (follow a b c) = discard-Sends net _ (call-Sends net _ _ _ _)
  run_tournament-Sends (featured a) = discard-Sends net _ (call-Sends net _ _ _ _)
  run_tournament-Sends (featured_random a b) = discard-Sends net _ (call-Sends net _ _ _ _)
  run_tournament-Sends (mine a b) = discard-Sends net _ (call-Sends net _ _ _ _)
  run_tournament-Sends (mine_page a b) =
      discard-Sends net _ (then_settle net _ _ (call_envelope-Sends net _ _ _ _))
  run_tournament-Sends (close_round a b) = discard-Sends net _ (call-Sends net _ _ _ _)
  run_tournament-Sends (finish a b) = discard-Sends net _ (call-Sends net _ _ _ _)
  run_tournament-Sends (extend a b c) = discard-Sends net _ (call-Sends net _ _ _ _)
  run_tournament-Sends (set_visibility a b c) = discard-Sends net _ (call-Sends net _ _ _ _)
  run_tournament-Sends (remove a b) = discard-Sends net _ (call-Sends net _ _ _ _)
  run_tournament-Sends (candidates a b) = discard-Sends net _ (call-Sends net _ _ _ _)
  run_tournament-Sends (genres a) = discard-Sends net _ (call-Sends net _ _ _ _)
