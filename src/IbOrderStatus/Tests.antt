-- ===== src/IbOrderStatus/Tests.antt =====
-- The callbacks of app/ib_order_status_transport.py on concrete ledgers.
use bitcoin_trading_strategy.Shared.{ℕ, ◌≡◌, refl, Option, none, some, List, [], ◌∷◌}
use bitcoin_trading_strategy.Shared.Int.{pos}
use bitcoin_trading_strategy.Shared.Result.{ok, err, value_error}
use bitcoin_trading_strategy.Shared.Decimal.{
  Decimal, finite, of_int, lt_dec, validate_nonnegative_decimal,
}
use bitcoin_trading_strategy.Shared.Sort.{sort_by}
use bitcoin_trading_strategy.Shared.Table.{find, update}
use bitcoin_trading_strategy.Shared.Text.{validate_identifier, strip, is_space, upper}
use bitcoin_trading_strategy.Protocol.{buy_to_open, staging, TradeRequest, intent_value}
use bitcoin_trading_strategy.ExecutionLedger.{
  submitted, acknowledged, filled, cancelled, ExecutionRecord, Ledger, empty, record_key,
  moved_record, write_transition, reserve, transition, get, insert_record, reserved_ledger,
  validate_broker_order_id, normalize_reason, allowed_transitions, all_records,
}
use bitcoin_trading_strategy.ExecutionLedger.Runs.{Call, reserve_call, transition_call, run}
use bitcoin_trading_strategy.IbOrderStatus.{
  updated, result_of, handle_order_status, find_record_by_broker_order_id, only_match,
  determine_execution_status, is_stale_or_regressive,
}
use bitcoin_trading_strategy.IbOrderStatus.Callbacks.{
  Callback, order_status, rejection, heard_all, Advanced, heard_all-Advanced,
}
use bitcoin_trading_strategy.IbOrderStatus.Settled.{news_recorded, late_cancel_raises}

abbrev request : TradeRequest
request = record {
  event_id = "e1";
  signal_id = "s1";
  timestamp = 0;
  environment = staging;
  intent = buy_to_open;
  symbol = "MBT";
  quantity = pos 2;
  stop_loss_points = of_int (pos 500);
}

abbrev whole : ℕ → Option Decimal
whole n = some (finite (of_int (pos n)))

abbrev sent_calls : List Call
sent_calls = reserve_call 10 request ∷ transition_call 11 "e1" submitted (some (pos 7)) none ∷ []

abbrev sent_record : ExecutionRecord
sent_record = record {
  event_id = "e1";
  signal_id = "s1";
  symbol = "MBT";
  intent = "BUY_TO_OPEN";
  quantity = pos 2;
  status = submitted;
  broker_order_id = some 7;
  reason = none;
  created_at = 10;
  updated_at = 11;
}

sent_match : find_record_by_broker_order_id 7 (run sent_calls empty) ≡ ok (some sent_record)
unfolding find_record_by_broker_order_id only_match all_records sort_by find run reserve transition
    get insert_record reserved_ledger validate_identifier strip is_space upper intent_value update
    allowed_transitions validate_broker_order_id normalize_reason write_transition
sent_match = refl

news_recorded_example :
    handle_order_status 12 (pos 7) "PreSubmitted" (whole 0) (whole 2) (run sent_calls empty) ≡ (
      ok (
          result_of 12 7 "PreSubmitted" updated
            (moved_record acknowledged (some 7) none 12 sent_record)),
      write_transition "e1" sent_record acknowledged (some 7) none 12 (run sent_calls empty),
    )
unfolding validate_identifier strip is_space validate_nonnegative_decimal determine_execution_status
    upper is_stale_or_regressive lt_dec
news_recorded_example =
    news_recorded sent_calls 12 7 "PreSubmitted" "PreSubmitted" (whole 0) (whole 2) (of_int (pos 0))
      (of_int (pos 2)) sent_record acknowledged refl refl refl sent_match refl refl refl

abbrev filled_calls : List Call
filled_calls =
    reserve_call 10 request
    ∷ transition_call 11 "e1" submitted (some (pos 7)) none
    ∷ transition_call 12 "e1" filled none none
    ∷ []

abbrev filled_record : ExecutionRecord
filled_record = record sent_record { status = filled; updated_at = 12 }

filled_match : find_record_by_broker_order_id 7 (run filled_calls empty) ≡ ok (some filled_record)
unfolding find_record_by_broker_order_id only_match all_records sort_by find run reserve transition
    get insert_record reserved_ledger validate_identifier strip is_space upper intent_value update
    allowed_transitions validate_broker_order_id normalize_reason write_transition
filled_match = refl

late_cancel_raises_example :
    (cancelled ≡ cancelled)
    × (handle_order_status 13 (pos 7) "Cancelled" (whole 2) (whole 0) (run filled_calls empty)
        ≡ (err value_error, run filled_calls empty))
unfolding validate_identifier strip is_space validate_nonnegative_decimal determine_execution_status
    upper is_stale_or_regressive lt_dec
late_cancel_raises_example =
    late_cancel_raises filled_calls 13 7 "Cancelled" "Cancelled" (whole 2) (whole 0)
      (of_int (pos 2)) (of_int (pos 0)) filled_record cancelled refl refl refl filled_match refl
      refl refl

-- The order is filled, then an older report arrives, and a rejection.
abbrev callbacks : List Callback
callbacks =
    order_status 12 (pos 7) "Filled" (whole 2) (whole 0)
    ∷ order_status 13 (pos 7) "Submitted" (whole 1) (whole 1)
    ∷ rejection 14 (pos 7) "margin"
    ∷ []

abbrev sent_ledger : Ledger
sent_ledger = record { records = sent_record ∷ []; transitions = []; next_transition_id = 1 }

heard_all-Advanced_example :
    (r : ExecutionRecord) × (find record_key "e1" (heard_all callbacks sent_ledger).records
      ≡ some r)
    × Advanced sent_record r
unfolding find
heard_all-Advanced_example = heard_all-Advanced callbacks sent_ledger "e1" sent_record refl
