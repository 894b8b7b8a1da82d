-- ===== src/Api/Session.antt =====
-- A viewer's session: any calls of the backend, one after another, each failed or not.
use rank_verse.Base.{List, [], ◌∷◌, All}
use rank_verse.Api.Client.{Net, Client, World}
use rank_verse.Account.Retry.{Tab}
use rank_verse.Api.Sends.{Log, logged, Sends}
use rank_verse.Api.Private.{IsShareable}
use rank_verse.Api.Calls.Title.{TitleCall, run_title, run_title-Sends}
use rank_verse.Api.Calls.Lists.{ListCall, run_list, run_list-Sends}
use rank_verse.Api.Calls.User.{UserCall, run_user, run_user-Sends}
use rank_verse.Api.Calls.Battle.{BattleCall, run_battle, run_battle-Sends}
use rank_verse.Api.Calls.Tournament.{TournamentCall, run_tournament, run_tournament-Sends}
use rank_verse.Api.Calls.Notification.{NotificationCall, run_notification, run_notification-Sends}

pub data Call (J : Type 0) : Type 0 where
  title : TitleCall J → Call J
  list : ListCall J → Call J
  user : UserCall J → Call J
  battle : BattleCall J → Call J
  tournament : TournamentCall J → Call J
  notification : NotificationCall → Call J

module _ {S J : Type 0} (net : Net S J) where
  unfoldable pub run_call : Call J → Client S (Unit {0})
  unfolding run_title run_list run_user run_battle run_tournament run_notification
  run_call (title c) = run_title net c
  run_call (list c) = run_list net c
  run_call (user c) = run_user net c
  run_call (battle c) = run_battle net c
  run_call (tournament c) = run_tournament net c
  run_call (notification c) = run_notification net c

  unfoldable pub run_all : List (Call J) → World S → World S
  unfolding run_call
  run_all [] w = w
  run_all (c ∷ cs) w = run_all cs (run_call c w).1

module _ {S J : Type 0} (net : Net S J) where
  run_call-Sends : (call : Call J) → Sends IsShareable (run_call (logged net) call)
  unfolding run_call
  run_call-Sends (title c) = run_title-Sends net c
  run_call-Sends (list c) = run_list-Sends net c
  run_call-Sends (user c) = run_user-Sends net c
  run_call-Sends (battle c) = run_battle-Sends net c
  run_call-Sends (tournament c) = run_tournament-Sends net c
  run_call-Sends (notification c) = run_notification-Sends net c

  run_all-keeps :
      (calls : List (Call J)) (w : World (Log S J))
      → All IsShareable w.server.1
      → All IsShareable (run_all (logged net) calls w).server.1
  unfolding run_all
  run_all-keeps [] w h = h
  run_all-keeps (c ∷ cs) w h =
      run_all-keeps cs (run_call (logged net) c w).1 ((run_call-Sends c).kept w h)

  -- Whatever calls a viewer makes, in any order and whatever the server answers, no request whose
  -- answer is kept in a cache carries a token, neither the caller's nor a refreshed one.
  pub run_all-IsShareable :
      (calls : List (Call J)) (tab : Tab) (s : S)
      → All IsShareable
          (run_all (logged net) calls (record { tab = tab; server = (s, []) })).server.1
  run_all-IsShareable calls tab s = run_all-keeps calls _ tt
