-- ===== src/IbExecutionDetails/Tests.antt =====
-- The callbacks of app/ib_execution_details_transport.py on concrete databases.
use bitcoin_trading_strategy.Shared.{◌++◌, ap}
use bitcoin_trading_strategy.Shared.{◌≡◌, refl, none, some, List, [], ◌∷◌, All}
use bitcoin_trading_strategy.Shared.Int.{pos}
use bitcoin_trading_strategy.Shared.Result.{ok}
use bitcoin_trading_strategy.Shared.Decimal.{
  finite, of_int, lt_dec, eq_dec, validate_positive_decimal,
}
use bitcoin_trading_strategy.Shared.Sort.{sort_by}
use bitcoin_trading_strategy.Shared.Table.{find, update, IsKeyed}
use bitcoin_trading_strategy.Shared.Text.{validate_identifier, strip, is_space, upper}
use bitcoin_trading_strategy.Protocol.{buy_to_open, staging, TradeRequest, intent_value}
use bitcoin_trading_strategy.ExecutionLedger.{
  submitted, partially_filled, ExecutionRecord, write_transition, reserve, transition, get,
  insert_record, reserved_ledger, validate_broker_order_id, normalize_reason, allowed_transitions,
  all_records, mark_partially_filled, mark_filled,
}
use bitcoin_trading_strategy.ExecutionLedger.Runs.{reserve_call, transition_call}
use bitcoin_trading_strategy.IbOrderFactory.{Contract}
use bitcoin_trading_strategy.IbOrderStatus.{
  validate_order_id, find_record_by_broker_order_id, known_record, only_match,
}
use bitcoin_trading_strategy.IbExecutionDetails.{
  Execution, IbExecutionDetailsResult, updated, duplicate, exec_key, record_execution_id, advance,
  settle, settle_open, settle_matched, handle_execution, execution_id_exists, validate_contract,
  expected_side, validate_execution_side, normalize_optional_execution_time,
}
use bitcoin_trading_strategy.IbExecutionDetails.Within.{
  Event, ledger_call, execution, run, new_database, IsCovered, executions_within,
}
use bitcoin_trading_strategy.IbExecutionDetails.Replay.{handle_execution-again}

abbrev request : TradeRequest
request = record {
  event_id = "e1";
  signal_id = "s1";
  timestamp = 0;
  environment = staging;
  intent = buy_to_open;
  symbol = "MBT";
  quantity = pos 2;
  stop_loss_points = of_int (pos 500);
}

abbrev contract : Contract
contract = record {
  symbol = "MBT";
  sec_type = "FUT";
  exchange = "CME";
  currency = "USD";
  last_trade_date_or_contract_month = "202608";
  trading_class = "MBT";
}

abbrev fill : Execution
fill = record {
  order_id = pos 7;
  exec_id = "x1";
  side = "BOT";
  shares = some (finite (of_int (pos 1)));
  cum_qty = some (finite (of_int (pos 1)));
  time = none;
}

abbrev sent : List Event
sent =
    ledger_call (reserve_call 10 request)
    ∷ ledger_call (transition_call 11 "e1" submitted (some (pos 7)) none)
    ∷ []

abbrev moved : ExecutionRecord
moved = record {
  event_id = "e1";
  signal_id = "s1";
  symbol = "MBT";
  intent = "BUY_TO_OPEN";
  quantity = pos 2;
  status = partially_filled;
  broker_order_id = some 7;
  reason = none;
  created_at = 10;
  updated_at = 21;
}

abbrev first_result : IbExecutionDetailsResult
first_result = record {
  outcome = updated;
  broker_order_id = 7;
  exec_id = "x1";
  cumulative_quantity = of_int (pos 1);
  execution_record = moved;
}

filled_once : (handle_execution 20 21 contract fill (run sent new_database)).0 ≡ ok first_result
unfolding run reserve transition get insert_record reserved_ledger validate_broker_order_id
    normalize_reason allowed_transitions all_records mark_partially_filled mark_filled find update
    sort_by validate_identifier strip is_space upper intent_value write_transition lt_dec eq_dec
    validate_positive_decimal validate_order_id find_record_by_broker_order_id known_record
    only_match record_execution_id advance settle settle_open settle_matched handle_execution
    execution_id_exists validate_contract expected_side validate_execution_side
    normalize_optional_execution_time
filled_once = refl

executions_within_example :
    let d = run (sent ++ execution 20 21 contract fill ∷ []) new_database in
    IsKeyed exec_key d.ib_execution_details × All (IsCovered d.ledger) d.ib_execution_details
executions_within_example = executions_within (sent ++ execution 20 21 contract fill ∷ [])

handle_execution-again_example :
    handle_execution 30 31 contract fill
      (handle_execution 20 21 contract fill (run sent new_database)).1
    ≡ (
      ok (record first_result { outcome = duplicate }),
      (handle_execution 20 21 contract fill (run sent new_database)).1,
    )
handle_execution-again_example =
    handle_execution-again 20 21 contract fill sent _ first_result
      (ap (λ o. (o, (handle_execution 20 21 contract fill (run sent new_database)).1)) filled_once)
      30 31
