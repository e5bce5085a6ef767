-- ===== src/ExecutionLedger/Tests.antt =====
-- The theorems on app/execution_ledger.py at concrete calls.
use bitcoin_trading_strategy.Shared.{◌≡◌, refl, none, some, List, [], ◌∷◌}
use bitcoin_trading_strategy.Shared.Decimal.{of_int}
use bitcoin_trading_strategy.Shared.Int.{pos}
use bitcoin_trading_strategy.Shared.Result.{ok}
use bitcoin_trading_strategy.Shared.Table.{find, update}
use bitcoin_trading_strategy.Shared.Text.{strip, is_space, upper, validate_identifier}
use bitcoin_trading_strategy.Protocol.{buy_to_open, staging, TradeRequest, intent_value}
use bitcoin_trading_strategy.ExecutionLedger.{
  submitted, acknowledged, filled, ExecutionRecord, ExecutionTransition, empty, record_key, reserve,
  transition, history, get, insert_record, reserved_ledger, allowed_transitions,
  validate_broker_order_id, normalize_reason,
}
use bitcoin_trading_strategy.ExecutionLedger.Audit.{replay, status_of}
use bitcoin_trading_strategy.ExecutionLedger.Runs.{
  Call, reserve_call, transition_call, run, history-run, run-terminal,
}

abbrev request : TradeRequest
request = record {
  event_id = "e1";
  signal_id = "s1";
  timestamp = 0;
  environment = staging;
  intent = buy_to_open;
  symbol = " mbt";
  quantity = pos 2;
  stop_loss_points = of_int (pos 500);
}

-- The last call tries to leave a terminal status, and raises.
abbrev calls : List Call
calls =
    reserve_call 10 request
    ∷ transition_call 11 "e1" submitted (some (pos 7)) none
    ∷ transition_call 12 "e1" filled none none
    ∷ transition_call 13 "e1" acknowledged none none
    ∷ []

history-run_example :
    (ts : List ExecutionTransition) × (history "e1 " (run calls empty) ≡ (ok ts, run calls empty))
    × (replay none ts ≡ some (status_of "e1" (run calls empty)))
unfolding validate_identifier strip is_space
history-run_example = history-run calls "e1 " "e1" refl

abbrev filled_record : ExecutionRecord
filled_record = record {
  event_id = "e1";
  signal_id = "s1";
  symbol = "MBT";
  intent = "BUY_TO_OPEN";
  quantity = pos 2;
  status = filled;
  broker_order_id = some 7;
  reason = none;
  created_at = 10;
  updated_at = 12;
}

calls_fill : find record_key "e1" (run calls empty).records ≡ some filled_record
unfolding find run reserve transition get insert_record reserved_ledger validate_identifier strip
    is_space upper intent_value update allowed_transitions validate_broker_order_id normalize_reason
calls_fill = refl

run-terminal_example :
    find record_key "e1"
      (run calls
        (record { records = filled_record ∷ []; transitions = []; next_transition_id = 1 })).records
    ≡ some filled_record
unfolding find
run-terminal_example =
    run-terminal calls
      (record { records = filled_record ∷ []; transitions = []; next_transition_id = 1 }) "e1"
      filled_record refl refl
