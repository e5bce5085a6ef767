-- ===== src/IbExecutionClient/Tests.antt =====
-- The theorems on app/ib_execution_client.py at concrete submissions.
use bitcoin_trading_strategy.Shared.{
  ℕ, ◌≤◌, String, ◌≡◌, refl, false, none, List, [], ◌∷◌, All, length,
}
use bitcoin_trading_strategy.Shared.Decimal.{of_int}
use bitcoin_trading_strategy.Shared.Int.{pos}
use bitcoin_trading_strategy.Shared.Result.{Result, ok, err, value_error, broker_error}
use bitcoin_trading_strategy.Shared.Table.{find}
use bitcoin_trading_strategy.Shared.Text.{strip, is_space, upper, validate_identifier}
use bitcoin_trading_strategy.Protocol.{TradeRequest, buy_to_open, staging, intent_value}
use bitcoin_trading_strategy.ExecutionLedger.{ExecutionRecord, filled, new_record}
use bitcoin_trading_strategy.IbOrderFactory.{
  Contract, Order, IbOrderPackage, IbOrderFactory, create, create_contract, create_order,
  validate_contract_month, action_for_intent,
}
use bitcoin_trading_strategy.IbExecutionClient.{
  Client, new_client, matches_request, submit_reserved, submit,
}
use bitcoin_trading_strategy.IbExecutionClient.Sent.{HasLeft}
use bitcoin_trading_strategy.IbExecutionClient.Safety.{
  Event, submit_event, callback, restart, run, calls_about, submitted_at_most_once, calls_recorded,
}
use bitcoin_trading_strategy.IbExecutionClient.Submission.{Sends, submit_reserved-Sends}
use bitcoin_trading_strategy.IbExecutionClient.Fresh.{
  reserved_client, submit-Sends, submit_unmatched,
}

abbrev accepting_broker : ℕ → Contract → Order → Result (Unit {0})
accepting_broker _ _ _ = ok tt

abbrev failing_broker : ℕ → Contract → Order → Result (Unit {0})
failing_broker _ _ _ = err broker_error

abbrev factory : IbOrderFactory
factory = record {
  exchange = "CME";
  currency = "USD";
  trading_class = "MBT";
  order_type = "MKT";
  time_in_force = "DAY";
  transmit = false;
  limit_price = none;
}

abbrev request : String → TradeRequest
request event = record {
  event_id = event;
  signal_id = "s1";
  timestamp = 0;
  environment = staging;
  intent = buy_to_open;
  symbol = "MBT";
  quantity = pos 2;
  stop_loss_points = of_int (pos 500);
}

abbrev expected_package : IbOrderPackage
expected_package = record {
  event_id = "e1";
  signal_id = "s1";
  contract = record {
    symbol = "MBT";
    sec_type = "FUT";
    exchange = "CME";
    currency = "USD";
    last_trade_date_or_contract_month = "202612";
    trading_class = "MBT";
  };
  order = record {
    action = "BUY";
    total_quantity = pos 2;
    order_type = "MKT";
    tif = "DAY";
    transmit = false;
    lmt_price = none;
  };
}

-- The broker fails, the process restarts, and the event is submitted again, twice.
abbrev script : List Event
script =
    submit_event failing_broker factory 10 11 (request "e1") "202612" (pos 7)
    ∷ restart
    ∷ submit_event accepting_broker factory 12 13 (request "e1") "202612" (pos 8)
    ∷ callback 14 "e1" filled none
    ∷ submit_event accepting_broker factory 15 16 (request "e1 ") "202612" (pos 9)
    ∷ []

submitted_at_most_once_example : length (calls_about "e1" (run script new_client)) ≤ 1
submitted_at_most_once_example = submitted_at_most_once script "e1"

calls_recorded_example :
    All
      (λ b. HasLeft (run script new_client).ledger b.event_id b.order_id)
      (run script new_client).calls
calls_recorded_example = calls_recorded script

abbrev record_of : ExecutionRecord
record_of = new_record "e1" "s1" "MBT" (request "e1") 10

abbrev waiting : Client
waiting = record new_client {
  ledger = record { records = record_of ∷ []; transitions = []; next_transition_id = 1 };
}

submit_reserved-Sends_example :
    Sends failing_broker factory
      (request "e1")
      "e1"
      record_of
      11
      7
      expected_package
      (submit_reserved failing_broker factory 11 (request "e1") "202612" (pos 7) waiting)
      waiting
unfolding find validate_identifier strip is_space upper matches_request create create_contract
    create_order validate_contract_month action_for_intent intent_value
submit_reserved-Sends_example =
    submit_reserved-Sends failing_broker factory (request "e1") "e1" record_of 11 7 expected_package
      "202612" "s1" waiting refl refl refl refl refl refl

submit-Sends_example :
    Sends failing_broker factory
      (request "e1")
      "e1"
      record_of
      11
      7
      expected_package
      (submit failing_broker factory 10 11 (request "e1") "202612" (pos 7) new_client)
      new_client
unfolding find validate_identifier strip is_space upper matches_request create create_contract
    create_order validate_contract_month action_for_intent intent_value
submit-Sends_example =
    submit-Sends (request "e1") "e1" "s1" "MBT" 10 new_client refl refl refl refl refl refl
      failing_broker factory 11 7 "202612" expected_package refl refl

submit_unmatched_example :
    submit accepting_broker factory 10 11 (request " e1") "202612" (pos 7) new_client
    ≡ (err value_error, reserved_client (request " e1") "e1" "s1" "MBT" 10 new_client)
unfolding find validate_identifier strip is_space upper matches_request intent_value
submit_unmatched_example =
    submit_unmatched (request " e1") "e1" "s1" "MBT" 10 new_client refl refl refl refl refl refl
      accepting_broker factory 11 7 "202612" refl
