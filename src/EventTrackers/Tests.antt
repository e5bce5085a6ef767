-- ===== src/EventTrackers/Tests.antt =====
-- The trackers and the store on concrete calls.
use bitcoin_trading_strategy.Shared.{◌≡◌, List, [], ◌∷◌}
use bitcoin_trading_strategy.Shared.Int.{pos}
use bitcoin_trading_strategy.EventStore.{empty}
use bitcoin_trading_strategy.EventTrackers.Agreement.{
  Call, check_event, has_event, mark_seq, check_seq, store_answers, tracker_answers, new_trackers,
  new_answers-agree,
}

abbrev calls : List Call
calls =
    check_event "a" ∷ check_event "a" ∷ has_event " " ∷ mark_seq (pos 4) ∷ check_seq (pos 4) ∷ []

new_answers-agree_example : store_answers calls empty ≡ tracker_answers calls new_trackers
new_answers-agree_example = new_answers-agree calls
