-- ===== src/SignalLifecycle/Tests.antt =====
-- The theorems on app/signal_lifecycle_guard.py at concrete requests.
use bitcoin_trading_strategy.Shared.{String, str_eq, ◌≡◌, refl, List, [], ◌∷◌, if◌then◌else◌}
use bitcoin_trading_strategy.Shared.Decimal.{of_int}
use bitcoin_trading_strategy.Shared.Int.{pos}
use bitcoin_trading_strategy.Shared.Result.{ok}
use bitcoin_trading_strategy.Shared.Table.{find, update}
use bitcoin_trading_strategy.Shared.Text.{strip, is_space, validate_identifier}
use bitcoin_trading_strategy.Protocol.{
  TradeIntent, buy_to_open, sell_to_open, sell_to_close, staging, TradeRequest,
}
use bitcoin_trading_strategy.SignalLifecycle.{
  long_open, Guard, empty, decision_of, next_state_for, process, state_value, state_of_value,
}
use bitcoin_trading_strategy.SignalLifecycle.Invariant.{IsWellFormed, view}
use bitcoin_trading_strategy.SignalLifecycle.Refinement.{settle, verdict, process-refines}
use bitcoin_trading_strategy.SignalLifecycle.Lives.{
  IsLife, accepted_intents, decisions, decisions-IsLife,
}

abbrev request : String → String → TradeIntent → TradeRequest
request event signal intent = record {
  event_id = event;
  signal_id = signal;
  timestamp = 0;
  environment = staging;
  intent = intent;
  symbol = "MBT";
  quantity = pos 1;
  stop_loss_points = of_int (pos 500);
}

-- A guard that holds one open long signal.
abbrev one_long : Guard
one_long = record {
  signal_lifecycle = record { signal_id = "s1"; state = "LongOpen"; last_event_id = "e1" } ∷ [];
}

one_long-IsWellFormed : IsWellFormed one_long
unfolding find state_value
one_long-IsWellFormed = record { keyed = (refl, tt); states = ((long_open, refl), tt) }

process-refines_example :
    ((process (request "e2" " s1 " sell_to_close) one_long).0
      ≡ ok (
          decision_of "s1" "e2"
            (verdict (next_state_for (view one_long "s1") sell_to_close))
            sell_to_close
            (view one_long "s1")
            (next_state_for (view one_long "s1") sell_to_close)))
    × ((j : String)
        → view (process (request "e2" " s1 " sell_to_close) one_long).1 j
          ≡ (if str_eq "s1" j then settle (view one_long "s1") sell_to_close else view one_long j))
    × IsWellFormed (process (request "e2" " s1 " sell_to_close) one_long).1
unfolding validate_identifier strip is_space
process-refines_example =
    process-refines (request "e2" " s1 " sell_to_close) one_long "s1" "e2" one_long-IsWellFormed
      refl refl

abbrev script : List TradeRequest
script =
    request "e1" "s1" sell_to_close
    ∷ request "e2" "s1" buy_to_open
    ∷ request "e3" "s1" buy_to_open
    ∷ request "e4" "s2" sell_to_open
    ∷ request "e5" "s1" sell_to_close
    ∷ request "e6" "s1" buy_to_open
    ∷ []

script_accepts : accepted_intents "s1" (decisions script empty) ≡ buy_to_open ∷ sell_to_close ∷ []
unfolding accepted_intents decisions process validate_identifier strip is_space next_state_for find
    update state_value state_of_value
script_accepts = refl

decisions-IsLife_example : IsLife (accepted_intents "s1" (decisions script empty))
decisions-IsLife_example = decisions-IsLife script "s1"
