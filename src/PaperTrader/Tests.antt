-- ===== src/PaperTrader/Tests.antt =====
-- The decisions of scripts/run_real_eagle_ib_paper_trader.py on concrete data.
use bitcoin_trading_strategy.PaperTrader.Restart.Floor.{IsBelow}
use bitcoin_trading_strategy.PaperTrader.Durable.{highest_id}
use bitcoin_trading_strategy.Shared.{◌≤◌}
use bitcoin_trading_strategy.PaperTrader.Hello.Agreement.{IsSameTrade, hello_agrees}
use bitcoin_trading_strategy.PaperTrader.Hello.{
  EaglePosition, field_text, require, require_match, require_positioned, direction_of,
  require_eagle_hello_reconciled,
}
use bitcoin_trading_strategy.Shared.Text.{lower}
use bitcoin_trading_strategy.Protocol.{text, payload_get}
use bitcoin_trading_strategy.Protocol.{intent_of_value}
use bitcoin_trading_strategy.PaperTrader.Durable.{
  require_matching_exit, exit_intent_of, unsubmitted,
}
use bitcoin_trading_strategy.Shared.{
  String, ℕ, ◌≡◌, refl, ◌⊎◌, true, false, ◌&&◌, not, none, some, [], ◌∷◌, All,
}
use bitcoin_trading_strategy.Shared.Int.{pos, ◌+ℤ◌, neg}
use bitcoin_trading_strategy.Shared.Result.{Result, ok, is_ok}
use bitcoin_trading_strategy.Shared.Decimal.{of_int}
use bitcoin_trading_strategy.Shared.Sort.{sort_by}
use bitcoin_trading_strategy.Shared.Table.{find, update}
use bitcoin_trading_strategy.Shared.Text.{validate_identifier, strip, is_space, upper}
use bitcoin_trading_strategy.Protocol.{TradeIntent, sell_to_close, TradeRequest, staging}
use bitcoin_trading_strategy.SignalLifecycle.{
  long_open, closed, accepted, SignalLifecycleDecision, Guard, process, advance, write_row,
  stored_state, state_of_value, state_value, next_state_for,
}
use bitcoin_trading_strategy.SignalLifecycle.Invariant.{IsWellFormed}
use bitcoin_trading_strategy.KillSwitch.{new_switch}
use bitcoin_trading_strategy.DailyLossGuard.{new_guard}
use bitcoin_trading_strategy.RiskManager.{
  RiskManager, is_approved, contains_symbol, position_delta, evaluate,
}
use bitcoin_trading_strategy.ExecutionLedger.{
  ExecutionRecord, Ledger, reserved, filled, all_records,
}
use bitcoin_trading_strategy.ExecutionLedger
use bitcoin_trading_strategy.EventStore
use bitcoin_trading_strategy.EventStore.{has_processed_event, validate_event_id, is_processed}
use bitcoin_trading_strategy.IbOrderIdAllocator.{IbOrderIdAllocator, allocate}
use bitcoin_trading_strategy.IbBrokerClient.{IbBrokerClient, get_raw_positions}
use bitcoin_trading_strategy.PaperTrader.Policy.{
  mbt, approved_quantity, DurableOpenSignal, raise_unless, only_signal, validate_intent,
  validate_trade_request_against_position, evaluate_reserved_exit_recovery,
}
use bitcoin_trading_strategy.PaperTrader.Reconcile.{
  allowed_symbols_of, total_position, get_mbt_position, require_approved,
  require_no_other_broker_positions, is_open_row, open_signal_of, open_signals_of,
  load_durable_open_signals, require_agreement, require_in_range, reconcile_broker_and_lifecycle,
}
use bitcoin_trading_strategy.PaperTrader.Durable.{
  apply_durable_order_id_floor, check_start, check_exit, find_reserved_exit, with_intents,
  only_exit,
}
use bitcoin_trading_strategy.PaperTrader.Accepted.{is_opening}
use bitcoin_trading_strategy.PaperTrader.Cycle.{IsReconciled, trade_reconciles}
use bitcoin_trading_strategy.PaperTrader.Exits.{recovery-eq-policy, closing_passes}
use bitcoin_trading_strategy.PaperTrader.Restart.{
  floor_above_durable, IsSafeStart, start_fails_closed,
}

abbrev request : TradeIntent → String → TradeRequest
request intent event_id = record {
  event_id = event_id;
  signal_id = "s1";
  timestamp = 0;
  environment = staging;
  intent = intent;
  symbol = "MBT";
  quantity = pos 2;
  stop_loss_points = of_int (pos 500);
}

abbrev exit : TradeRequest
exit = request sell_to_close "e2"

-- Long two contracts, and the signal that opened them.
abbrev long_client : IbBrokerClient
long_client = record {
  snapshot_in_progress = false;
  snapshot_complete = true;
  positions = record { symbol = "MBTQ6"; quantity = pos 2; signal_id = none } ∷ [];
}

abbrev flat_client : IbBrokerClient
flat_client = record { snapshot_in_progress = false; snapshot_complete = true; positions = [] }

abbrev long_guard : Guard
long_guard = record {
  signal_lifecycle = record { signal_id = "s1"; state = "LongOpen"; last_event_id = "e1" } ∷ [];
}

abbrev closed_guard : Guard
closed_guard = record {
  signal_lifecycle = record { signal_id = "s1"; state = "Closed"; last_event_id = "e2" } ∷ [];
}

abbrev open_signal : DurableOpenSignal
open_signal = record { signal_id = "s1"; state = long_open; last_event_id = "e1" }

abbrev decision : SignalLifecycleDecision
decision = record {
  status = accepted;
  signal_id = "s1";
  event_id = "e2";
  intent = sell_to_close;
  previous_state = some long_open;
  next_state = some closed;
}

reconciled_runs :
    reconcile_broker_and_lifecycle long_client long_guard (some "mbtq6") (pos 2)
    ≡ ok (pos 2, open_signal ∷ [])
unfolding reconcile_broker_and_lifecycle approved_quantity require_no_other_broker_positions
    allowed_symbols_of validate_identifier strip is_space upper get_raw_positions require_approved
    contains_symbol get_mbt_position total_position require_in_range load_durable_open_signals
    is_open_row open_signal_of open_signals_of sort_by require_agreement ◌+ℤ◌ neg
reconciled_runs = refl

admitted_runs :
    validate_trade_request_against_position exit (pos 2) (open_signal ∷ []) (pos 2) ≡ ok tt
unfolding validate_trade_request_against_position validate_intent raise_unless only_signal
admitted_runs = refl

process_runs : process exit long_guard ≡ (ok decision, closed_guard)
unfolding process validate_identifier strip is_space find stored_state state_of_value next_state_for
    advance write_row update state_value
process_runs = refl

alone_runs : require_no_other_broker_positions flat_client (some "mbtq6") ≡ ok tt
unfolding require_no_other_broker_positions allowed_symbols_of validate_identifier strip is_space
    upper get_raw_positions require_approved
alone_runs = refl

held_runs :
    get_mbt_position flat_client (some "mbtq6") ≡ ok (pos 2 +ℤ position_delta sell_to_close (pos 2))
unfolding get_mbt_position allowed_symbols_of validate_identifier strip is_space upper
    get_raw_positions total_position ◌+ℤ◌ position_delta neg
held_runs = refl

s1_valid : validate_identifier "s1" ≡ ok "s1"
unfolding validate_identifier strip is_space
s1_valid = refl

trade_reconciles_example :
    IsReconciled long_client flat_client long_guard closed_guard
      (some "mbtq6")
      (pos 2)
      (pos 2)
      (open_signal ∷ [])
      exit
trade_reconciles_example =
    trade_reconciles long_client flat_client long_guard closed_guard (some "mbtq6") (pos 2) (pos 2)
      (open_signal ∷ []) exit decision s1_valid reconciled_runs admitted_runs process_runs refl
      alone_runs held_runs

two_approved : approved_quantity (pos 2) ≡ ok (pos 2)
unfolding approved_quantity
two_approved = refl

recovery-eq-policy_example :
    (evaluate_reserved_exit_recovery exit (pos 2) (open_signal ∷ []) true (pos 2)).allowed ≡ (
      true
      && not (is_opening sell_to_close)
      && is_ok (validate_trade_request_against_position exit (pos 2) (open_signal ∷ []) (pos 2)))
recovery-eq-policy_example =
    recovery-eq-policy exit (pos 2) (open_signal ∷ []) true (pos 2) two_approved

abbrev manager : RiskManager
manager = record {
  controls = record {
    paused = true;
    symbol = "MBT";
    quantity = pos 1;
    stop_loss_points = of_int (pos 500);
  };
  kill_switch = new_switch;
  daily_loss_guard = new_guard (of_int (pos 500));
  allowed_symbols = "MBT" ∷ [];
  max_order_quantity = pos 1;
  max_absolute_position = pos 1;
}

mbt_allowed : contains_symbol mbt ("MBT" ∷ []) ≡ true
unfolding contains_symbol
mbt_allowed = refl

e2_valid : validate_identifier "e2" ≡ ok "e2"
unfolding validate_identifier strip is_space
e2_valid = refl

long_guard-IsWellFormed : IsWellFormed long_guard
unfolding find state_value
long_guard-IsWellFormed = record { keyed = (refl, tt); states = ((long_open, refl), tt) }

closing_passes_example :
    (is_approved (evaluate manager exit (pos 2)) ≡ true)
    × ((d : SignalLifecycleDecision) × ((process exit long_guard).0 ≡ ok d)
        × (d.status ≡ accepted)
        × (d.next_state ≡ some closed))
closing_passes_example =
    closing_passes long_client long_guard (some "mbtq6") (pos 2) (pos 2) (open_signal ∷ []) exit
      manager "e2" long_guard-IsWellFormed s1_valid e2_valid mbt_allowed refl reconciled_runs
      admitted_runs

-- A ledger with one reserved exit.
abbrev reserved_exit : ExecutionRecord
reserved_exit = record {
  event_id = "e2";
  signal_id = "s1";
  symbol = "MBT";
  intent = "SELL_TO_CLOSE";
  quantity = pos 2;
  status = reserved;
  broker_order_id = none;
  reason = none;
  created_at = 10;
  updated_at = 10;
}

abbrev old_fill : ExecutionRecord
old_fill = record reserved_exit {
  event_id = "e1";
  intent = "BUY_TO_OPEN";
  status = filled;
  broker_order_id = some 40;
  created_at = 5;
}

abbrev left_ledger : Ledger
left_ledger = record ExecutionLedger.empty { records = old_fill ∷ reserved_exit ∷ [] }

abbrev allocator : IbOrderIdAllocator
allocator = record {
  initialized = true;
  next_order_id = some 7;
  highest_allocated_order_id = none;
  highest_observed_order_id = none;
}

floor_above_durable_example :
    let (floor, a') = apply_durable_order_id_floor left_ledger allocator in
    (floor ≡ ok (highest_id (all_records left_ledger)))
    × ((id : ℕ) × ((allocate a').0 ≡ ok id) × (7 ≤ id) × All (IsBelow id) left_ledger.records)
floor_above_durable_example = floor_above_durable left_ledger allocator 7 refl refl

start_runs : check_start left_ledger EventStore.empty long_guard false (pos 2) ≡ ok true
unfolding check_start check_exit find_reserved_exit with_intents only_exit has_processed_event
    validate_event_id is_processed strip is_space validate_identifier load_durable_open_signals
    is_open_row open_signal_of open_signals_of sort_by all_records require_matching_exit
    exit_intent_of unsubmitted raise_unless intent_of_value
start_runs = refl

start_fails_closed_example : IsSafeStart left_ledger EventStore.empty long_guard false (pos 2) true
start_fails_closed_example =
    start_fails_closed left_ledger EventStore.empty long_guard false (pos 2) true start_runs

abbrev eagle_position : EaglePosition
eagle_position =
    ("symbol", text "BTCUSDT") ∷ ("signal_id", text "s1") ∷ ("direction", text " Long") ∷ []

hello_runs :
    require_eagle_hello_reconciled (eagle_position ∷ []) (pos 2) (open_signal ∷ []) (pos 2) ≡ ok tt
unfolding require_eagle_hello_reconciled approved_quantity require_positioned require_match require
    field_text payload_get strip is_space lower direction_of neg
hello_runs = refl

hello_agrees_example :
    ((pos 2 ≡ pos 0) × (eagle_position ∷ [] ≡ []) × (open_signal ∷ [] ≡ []))
    ⊎ ((p : EaglePosition) × (s : DurableOpenSignal) × (eagle_position ∷ [] ≡ p ∷ [])
        × (open_signal ∷ [] ≡ s ∷ [])
        × IsSameTrade p s (pos 2) (pos 2))
hello_agrees_example =
    hello_agrees (eagle_position ∷ []) (pos 2) (open_signal ∷ []) (pos 2) hello_runs
