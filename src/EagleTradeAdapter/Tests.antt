-- ===== src/EagleTradeAdapter/Tests.antt =====
-- app/communications/eagle_trade_adapter.py on concrete events.
use bitcoin_trading_strategy.Shared.{◌≡◌, refl, some, [], ◌∷◌}
use bitcoin_trading_strategy.Shared.Int.{pos}
use bitcoin_trading_strategy.Shared.Result.{ok}
use bitcoin_trading_strategy.Shared.Decimal.{of_int}
use bitcoin_trading_strategy.Shared.Table.{find}
use bitcoin_trading_strategy.Shared.Text.{validate_identifier, strip, is_space, upper, lower}
use bitcoin_trading_strategy.Protocol.{
  buy_to_open, sell_to_close, mapping, staging, IncomingLifecycleEvent, payload_get, TradeRequest,
  TradingSettingsSnapshot, from_event,
}
use bitcoin_trading_strategy.SignalLifecycle.{Guard, get_state, stored_state, state_of_value, empty}
use bitcoin_trading_strategy.EagleTradeAdapter.{
  adaptation, signal_field, adapt_entry, adapt_exit, exit_for, adapt_direction, adapt,
}
use bitcoin_trading_strategy.EagleTradeAdapter.Requests.{IsMeant, adapted_request}

abbrev exit : IncomingLifecycleEvent
exit = record {
  message_type = "fund.exit";
  seq = pos 4;
  event_id = "e2";
  signal_id = "s1";
  timestamp = 0;
  environment = staging;
  payload = [];
}

abbrev entry : IncomingLifecycleEvent
entry = record exit {
  message_type = "fund.entry";
  payload = ("signal", mapping (("symbol", some "btcusdt") ∷ ("direction", some "Long") ∷ [])) ∷ [];
}

abbrev long_guard : Guard
long_guard = record {
  signal_lifecycle = record { signal_id = "s1"; state = "LongOpen"; last_event_id = "e1" } ∷ [];
}

abbrev settings : TradingSettingsSnapshot
settings = record { symbol = "MBT"; quantity = pos 2; stop_loss_points = of_int (pos 500) }

entry_runs : adapt entry empty ≡ ok (adaptation entry "BTCUSDT" buy_to_open)
unfolding adapt adapt_entry payload_get signal_field adapt_direction strip is_space upper lower
entry_runs = refl

exit_runs : adapt exit long_guard ≡ ok (adaptation exit "BTCUSDT" sell_to_close)
unfolding adapt adapt_exit get_state validate_identifier strip is_space find stored_state
    state_of_value exit_for
exit_runs = refl

adapted_request_example :
    (event' : IncomingLifecycleEvent) × (request : TradeRequest) × ((adaptation exit "BTCUSDT"
        sell_to_close).event
      ≡ some event')
    × (from_event event' settings ≡ ok request)
    × (request.event_id ≡ exit.event_id)
    × (request.signal_id ≡ exit.signal_id)
    × IsMeant exit long_guard request.intent
adapted_request_example =
    adapted_request exit long_guard settings (adaptation exit "BTCUSDT" sell_to_close) exit_runs
      refl
