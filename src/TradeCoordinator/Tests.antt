-- ===== src/TradeCoordinator/Tests.antt =====
-- app/trade_coordinator.py on a concrete event.
use bitcoin_trading_strategy.Shared.{◌≡◌, refl, ◌⊎◌, true, false, none, some, [], ◌∷◌}
use bitcoin_trading_strategy.Shared.Int.{pos}
use bitcoin_trading_strategy.Shared.Result.{ok}
use bitcoin_trading_strategy.Shared.Decimal.{of_int}
use bitcoin_trading_strategy.Shared.Table.{find, update}
use bitcoin_trading_strategy.Shared.Text.{validate_identifier, strip, is_space}
use bitcoin_trading_strategy.Protocol.{
  IncomingLifecycleEvent, TradeRequest, staging, text, buy_to_open, from_event, payload_get,
  intent_of_value,
}
use bitcoin_trading_strategy.TradingControls.{TradingControls, create_snapshot}
use bitcoin_trading_strategy.SignalLifecycle.{
  Guard, empty, process, advance, write_row, stored_state, state_of_value, state_value,
  next_state_for,
}
use bitcoin_trading_strategy.TradeCoordinator.{
  approval, process_event, prepare_event, commit_request, IsApproval, process_event_outcome,
}

abbrev event : IncomingLifecycleEvent
event = record {
  message_type = "fund.entry";
  seq = pos 3;
  event_id = "e1";
  signal_id = "s1";
  timestamp = 0;
  environment = staging;
  payload = ("intent", text "BUY_TO_OPEN") ∷ [];
}

abbrev controls : TradingControls
controls = record {
  paused = false;
  symbol = "MBT";
  quantity = pos 1;
  stop_loss_points = of_int (pos 500);
}

abbrev request : TradeRequest
request = record {
  event_id = "e1";
  signal_id = "s1";
  timestamp = 0;
  environment = staging;
  intent = buy_to_open;
  symbol = "MBT";
  quantity = pos 1;
  stop_loss_points = of_int (pos 500);
}

abbrev opened : Guard
opened = record {
  signal_lifecycle = record { signal_id = "s1"; state = "LongOpen"; last_event_id = "e1" } ∷ [];
}

process_event_runs : process_event controls event empty ≡ (ok (approval request), opened)
unfolding process_event prepare_event commit_request from_event payload_get intent_of_value
    create_snapshot process validate_identifier strip is_space find update stored_state
    state_of_value next_state_for advance write_row state_value
process_event_runs = refl

process_event_outcome_example :
    IsApproval controls event empty (approval request) opened
    ⊎ ((true ≡ false) × (some request ≡ none) × (opened ≡ empty))
process_event_outcome_example =
    process_event_outcome controls event empty opened (approval request) process_event_runs
