-- ===== src/PaperTrader/Durable.antt =====
-- scripts/run_real_eagle_ib_paper_trader.py: what a start reads in the execution ledger.
use bitcoin_trading_strategy.SignalLifecycle.{Guard}
use bitcoin_trading_strategy.EventStore.{EventStore, has_processed_event}
use bitcoin_trading_strategy.PaperTrader.Reconcile.{load_durable_open_signals}
use bitcoin_trading_strategy.Shared.{
  ℕ, ◌+◌, String, str_eq, Bool, true, false, ◌&&◌, not, Option, none, some, List, [], ◌∷◌, max,
  filter, if◌then◌else◌,
}
use bitcoin_trading_strategy.Shared.Int.{ℤ, pos, eqb_ℤ}
use bitcoin_trading_strategy.Shared.Result.{Result, ok, err, runtime_error, ◌>>=◌, ◌>>◌}
use bitcoin_trading_strategy.Shared.Action
use bitcoin_trading_strategy.Shared.Action.{Action, modify, lift}
use bitcoin_trading_strategy.Protocol.{TradeIntent, buy_to_close, sell_to_close, intent_of_value}
use bitcoin_trading_strategy.SignalLifecycle.{SignalLifecycleState, long_open, short_open, closed}
use bitcoin_trading_strategy.ExecutionLedger.{
  ExecutionStatus, reserved, same_status, ExecutionRecord, terminal, Ledger, all_records,
}
use bitcoin_trading_strategy.IbOrderIdAllocator.{IbOrderIdAllocator, ensure_minimum_next_id}
use bitcoin_trading_strategy.PaperTrader.Policy.{mbt, is_closing, DurableOpenSignal, raise_unless}

all_terminal : List ExecutionRecord → Bool
all_terminal [] = true
all_terminal (r ∷ rs) = let rest = all_terminal rs in terminal r && rest

-- `execution_state_clear`
unfoldable pub execution_state_clear : Ledger → Bool
unfolding all_terminal
execution_state_clear l = all_terminal (all_records l)

-- `require_execution_state_clear`
unfoldable pub require_execution_state_clear : Ledger → Result (Unit {0})
require_execution_state_clear l = elim (filter (λ r. not (terminal r)) (all_records l)) [
  | [] ↦ ok tt
  | _ ∷ _ ↦ err runtime_error
]

unfoldable pub max_id : Option ℕ → Option ℕ → Option ℕ
max_id none highest = highest
max_id (some id) none = some id
max_id (some id) (some highest) = some (max id highest)

-- The largest broker order identifier of some records.
unfoldable pub highest_id : List ExecutionRecord → Option ℕ
unfolding max_id
highest_id [] = none
highest_id (r ∷ rs) = max_id r.broker_order_id (highest_id rs)

-- `apply_durable_order_id_floor`
unfoldable pub apply_durable_order_id_floor : Ledger → Action IbOrderIdAllocator (Option ℕ)
apply_durable_order_id_floor l a = elim (highest_id (all_records l)) [
  | none ↦ (ok none, a)
  | some highest ↦
      Action.◌>>◌ (ensure_minimum_next_id (pos (highest + 1))) (Action.pure (some highest)) a
]

pub record ReservedExitRecord : Type 0 where
  pub event_id : String
  pub signal_id : String
  pub symbol : String
  pub intent : TradeIntent
  pub quantity : ℤ
  pub status : ExecutionStatus
  pub broker_order_id : Option ℕ

-- `TradeIntent(record.intent)` of each record, where an unknown intent raises.
unfoldable pub with_intents : List ExecutionRecord → Result (List (ExecutionRecord × TradeIntent))
with_intents [] = ok []
with_intents (r ∷ rs) = do
  intent ← intent_of_value r.intent
  rest ← with_intents rs
  ok ((r, intent) ∷ rest)

abbrev pub all_closing : List (ExecutionRecord × TradeIntent) → Bool
all_closing [] = true
all_closing ((r, intent) ∷ rest) = let others = all_closing rest in is_closing intent && others

-- The exits among the reserved records, of which none is an opening.
unfoldable pub only_exit : List (ExecutionRecord × TradeIntent) → Result (Option ReservedExitRecord)
only_exit [] = ok none
only_exit ((r, intent) ∷ []) = ok (
    some (record {
      event_id = r.event_id;
      signal_id = r.signal_id;
      symbol = r.symbol;
      intent = intent;
      quantity = r.quantity;
      status = r.status;
      broker_order_id = r.broker_order_id;
    }))
only_exit (_ ∷ _ ∷ _) = err runtime_error

-- `find_reserved_exit`
unfoldable pub find_reserved_exit : Ledger → Result (Option ReservedExitRecord)
find_reserved_exit l = do
  found ← with_intents (filter (λ r. same_status r.status reserved) (all_records l))
  if all_closing found then only_exit found else err runtime_error

unfoldable pub exit_intent_of : SignalLifecycleState → Result TradeIntent
exit_intent_of long_open = ok sell_to_close
exit_intent_of short_open = ok buy_to_close
exit_intent_of closed = err runtime_error

abbrev pub same_closing : TradeIntent → TradeIntent → Bool
same_closing sell_to_close sell_to_close = true
same_closing buy_to_close buy_to_close = true
same_closing _ _ = false

unfoldable pub unsubmitted : Option ℕ → Result (Unit {0})
unsubmitted none = ok tt
unsubmitted (some _) = err runtime_error

-- The checks of a start on a reserved exit whose event Eagle has yet to replay.
unfoldable pub require_matching_exit :
    ReservedExitRecord → ℤ → List DurableOpenSignal → Result (Unit {0})
unfolding exit_intent_of unsubmitted
require_matching_exit exit quantity (s ∷ []) = do
  raise_unless (same_status exit.status reserved)
  unsubmitted exit.broker_order_id
  raise_unless (str_eq exit.symbol mbt)
  raise_unless (eqb_ℤ exit.quantity quantity)
  raise_unless (str_eq s.signal_id exit.signal_id)
  expected ← exit_intent_of s.state
  raise_unless (same_closing exit.intent expected)
require_matching_exit exit quantity _ = err runtime_error

-- What a start does with the reserved exit that it found: whether the exit waits for Eagle's replay.
unfoldable pub check_exit :
    Option ReservedExitRecord → Ledger → EventStore → Guard → Bool → ℤ → Result Bool
unfolding require_matching_exit
check_exit none l store g recover quantity = do require_execution_state_clear l; ok false
check_exit (some exit) l store g true quantity = ok false
check_exit (some exit) l store g false quantity = do
  processed ← (has_processed_event exit.event_id store).0
  raise_unless (not processed)
  signals ← load_durable_open_signals g
  require_matching_exit exit quantity signals
  ok true

-- The checks at the start of `run_continuous_paper_trader`.
unfoldable pub check_start : Ledger → EventStore → Guard → Bool → ℤ → Result Bool
check_start l store g recover quantity = do
  exit ← find_reserved_exit l
  check_exit exit l store g recover quantity
