-- ===== src/Api/Calls/Battle.antt =====
-- The calls of frontend/lib/api.ts in Api/Battles as data, and that none of them asks for an answer to be kept with a
-- token.
use rank_verse.Base.{String, Option}
use rank_verse.Base.Text.{Text}
use rank_verse.Api.Client.{Net, Client}
use rank_verse.Api.Sends.{logged, Sends}
use rank_verse.Api.Private.{raw-Sends, IsShareable, discard, discard-Sends, auth_fetch-Sends}
use rank_verse.Api.Battles
use rank_verse.Api.Battles.{Pair, Theme}

pub data BattleCall (J : Type 0) : Type 0 where
  get_next_battle : String → Text → Option Pair → BattleCall J
  get_themed_battle : Option String → Option Pair → Option Theme → BattleCall J
  cast_battle_vote : String → J → BattleCall J
  get_daily_battle : Option String → Option Text → BattleCall J
  cast_daily_vote : Option String → Option Text → J → BattleCall J
  get_pair_suggestion : String → BattleCall J

module _ {S J : Type 0} (net : Net S J) where
  unfoldable pub run_battle : BattleCall J → Client S (Unit {0})
  run_battle (get_next_battle a b c) = discard (Battles.get_next_battle net a b c)
  run_battle (get_themed_battle a b c) = discard (Battles.get_themed_battle net a b c)
  run_battle (cast_battle_vote a b) = discard (Battles.cast_battle_vote net a b)
  run_battle (get_daily_battle a b) = discard (Battles.get_daily_battle net a b)
  run_battle (cast_daily_vote a b c) = discard (Battles.cast_daily_vote net a b c)
  run_battle (get_pair_suggestion a) = discard (Battles.get_pair_suggestion net a)

module _ {S J : Type 0} (net : Net S J) where
  pub run_battle-Sends : (call : BattleCall J) → Sends IsShareable (run_battle (logged net) call)
  unfolding run_battle Battles.get_next_battle Battles.get_themed_battle Battles.cast_battle_vote
      Battles.get_daily_battle Battles.cast_daily_vote Battles.get_pair_suggestion
  run_battle-Sends (get_next_battle a b c) = discard-Sends net _ (raw-Sends net _ _ (λ token. tt))
  run_battle-Sends (get_themed_battle a b c) = discard-Sends net _ (raw-Sends net _ _ (λ token. tt))
  run_battle-Sends (cast_battle_vote a b) = discard-Sends net _ (raw-Sends net _ _ (λ token. tt))
  run_battle-Sends (get_daily_battle a b) = discard-Sends net _ (raw-Sends net _ _ (λ token. tt))
  run_battle-Sends (cast_daily_vote a b c) = discard-Sends net _ (raw-Sends net _ _ (λ token. tt))
  run_battle-Sends (get_pair_suggestion a) = discard-Sends net _ (auth_fetch-Sends net _ _ _ _)
