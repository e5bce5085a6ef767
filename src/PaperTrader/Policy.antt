-- ===== src/PaperTrader/Policy.antt =====
-- scripts/run_real_eagle_ib_paper_trader.py: the configuration, the policy on a trade request, and
-- the decision to recover an exit.
use bitcoin_trading_strategy.Shared.{
  ℕ, String, str_eq, Bool, true, false, ◌||◌, not, List, [], ◌∷◌, ◌+◌, leb, if◌then◌else◌,
}
use bitcoin_trading_strategy.Shared.Int.{ℤ, pos, neg, ltb_ℤ, eqb_ℤ}
use bitcoin_trading_strategy.Shared.Result.{
  Result, ok, err, value_error, runtime_error, map_ok, ◌>>=◌, ◌>>◌,
}
use bitcoin_trading_strategy.Shared.Text.{validate_identifier, upper}
use bitcoin_trading_strategy.Protocol.{
  TradeIntent, buy_to_open, sell_to_open, buy_to_close, sell_to_close, TradeRequest,
}
use bitcoin_trading_strategy.SignalLifecycle.{SignalLifecycleState, long_open, short_open, closed}
use bitcoin_trading_strategy.IbOrderFactory.{validate_contract_month}

-- `SYMBOL`, `MAX_CONFIGURABLE_QUANTITY` and `SUPPORTED_EAGLE_SYMBOL`
abbrev pub mbt : String
mbt = "MBT"

abbrev pub max_configurable_quantity : ℤ
max_configurable_quantity = pos 10

abbrev pub supported_eagle_symbol : String
supported_eagle_symbol = "BTCUSDT"

pub record RuntimeExecutionConfig : Type 0 where
  pub contract_month : String
  pub local_symbol : String
  pub quantity : ℤ

-- The check of a quantity that several functions share.
unfoldable pub approved_quantity : ℤ → Result ℤ
approved_quantity quantity =
    if ltb_ℤ quantity (pos 1) || ltb_ℤ max_configurable_quantity quantity
    then err value_error
    else ok quantity

-- `validate_runtime_execution_config`, whose check of the month is that of the order factory.
unfoldable pub validate_runtime_execution_config :
    String → String → ℤ → Result RuntimeExecutionConfig
unfolding approved_quantity
validate_runtime_execution_config contract_month local_symbol quantity = do
  month ← validate_contract_month contract_month
  local ← map_ok upper (validate_identifier local_symbol)
  q ← approved_quantity quantity
  ok (record { contract_month = month; local_symbol = local; quantity = q })

pub record DurableOpenSignal : Type 0 where
  pub signal_id : String
  pub state : SignalLifecycleState
  pub last_event_id : String

abbrev pub same_state : SignalLifecycleState → SignalLifecycleState → Bool
same_state long_open long_open = true
same_state short_open short_open = true
same_state closed closed = true
same_state _ _ = false

unfoldable pub raise_unless : Bool → Result (Unit {0})
raise_unless true = ok tt
raise_unless false = err runtime_error

-- `broker_position == ±expected_quantity`, with the one open signal in its state and the request's.
unfoldable pub only_signal :
    SignalLifecycleState → String → List DurableOpenSignal → Result (Unit {0})
unfolding raise_unless
only_signal state signal_id (s ∷ []) =
    raise_unless (same_state s.state state) >> raise_unless (str_eq s.signal_id signal_id)
only_signal state signal_id _ = err runtime_error

unfoldable pub no_signal : List DurableOpenSignal → Result (Unit {0})
no_signal [] = ok tt
no_signal (_ ∷ _) = err runtime_error

-- The part of `validate_trade_request_against_position` that looks at the intent.
unfoldable pub validate_intent : TradeRequest → ℤ → List DurableOpenSignal → ℤ → Result (Unit {0})
unfolding raise_unless only_signal no_signal
validate_intent request broker_position open_signals expected_quantity = elim request.intent [
  | buy_to_open ↦ raise_unless (eqb_ℤ broker_position (pos 0)) >> no_signal open_signals
  | sell_to_open ↦ raise_unless (eqb_ℤ broker_position (pos 0)) >> no_signal open_signals
  | sell_to_close ↦
      raise_unless (eqb_ℤ broker_position expected_quantity)
      >> only_signal long_open request.signal_id open_signals
  | buy_to_close ↦
      raise_unless (eqb_ℤ broker_position (neg expected_quantity))
      >> only_signal short_open request.signal_id open_signals
]

-- `validate_trade_request_against_position`
unfoldable pub validate_trade_request_against_position :
    TradeRequest → ℤ → List DurableOpenSignal → ℤ → Result (Unit {0})
unfolding raise_unless validate_intent
validate_trade_request_against_position request broker_position open_signals expected_quantity = do
  raise_unless (str_eq request.symbol mbt)
  raise_unless (eqb_ℤ request.quantity expected_quantity)
  validate_intent request broker_position open_signals expected_quantity

-- `expected_position_after_trade`
unfoldable pub expected_position_after_trade : TradeRequest → ℤ
expected_position_after_trade request = elim request.intent [
  | buy_to_open ↦ request.quantity
  | sell_to_open ↦ neg request.quantity
  | sell_to_close ↦ pos 0
  | buy_to_close ↦ pos 0
]

-- `expected_ib_action`
unfoldable pub expected_ib_action : TradeRequest → String
expected_ib_action request = elim request.intent [
  | buy_to_open ↦ "BUY"
  | buy_to_close ↦ "BUY"
  | sell_to_open ↦ "SELL"
  | sell_to_close ↦ "SELL"
]

-- The branch of the code that gave the decision.
pub data RecoveryReason : Type 0 where
  not_authorized other_symbol other_quantity opening_order already_flat : RecoveryReason
  position_outside not_one_signal signal_mismatch : RecoveryReason
  requires_long requires_long_open requires_short requires_short_open matched : RecoveryReason

pub record ReservedExitRecoveryDecision : Type 0 where
  pub allowed : Bool
  pub reason : RecoveryReason

unfoldable pub refused : RecoveryReason → ReservedExitRecoveryDecision
refused reason = record { allowed = false; reason = reason }

abbrev pub recovery_allowed : ReservedExitRecoveryDecision
recovery_allowed = record { allowed = true; reason = matched }

-- The last part of `evaluate_reserved_exit_recovery`: the side that the closing intent needs.
unfoldable pub closing_decision :
    TradeIntent → SignalLifecycleState → ℤ → ℤ → ReservedExitRecoveryDecision
unfolding refused
closing_decision sell_to_close state broker_position expected_quantity =
    if not (eqb_ℤ broker_position expected_quantity)
    then refused requires_long
    else if not (same_state state long_open)
    then refused requires_long_open
    else recovery_allowed
closing_decision buy_to_close state broker_position expected_quantity =
    if not (eqb_ℤ broker_position (neg expected_quantity))
    then refused requires_short
    else if not (same_state state short_open)
    then refused requires_short_open
    else recovery_allowed
closing_decision _ state broker_position expected_quantity = recovery_allowed

unfoldable pub signal_decision :
    TradeRequest → ℤ → List DurableOpenSignal → ℤ → ReservedExitRecoveryDecision
unfolding refused closing_decision
signal_decision request broker_position (s ∷ []) expected_quantity =
    if not (str_eq s.signal_id request.signal_id)
    then refused signal_mismatch
    else closing_decision request.intent s.state broker_position expected_quantity
signal_decision request broker_position _ expected_quantity = refused not_one_signal

abbrev pub is_closing : TradeIntent → Bool
is_closing sell_to_close = true
is_closing buy_to_close = true
is_closing _ = false

-- `evaluate_reserved_exit_recovery`
unfoldable pub evaluate_reserved_exit_recovery :
    TradeRequest → ℤ → List DurableOpenSignal → Bool → ℤ → ReservedExitRecoveryDecision
unfolding refused signal_decision
evaluate_reserved_exit_recovery request broker_position open_signals recovery_authorized
      expected_quantity =
    if not recovery_authorized
    then refused not_authorized
    else if not (str_eq request.symbol mbt)
    then refused other_symbol
    else if not (eqb_ℤ request.quantity expected_quantity)
    then refused other_quantity
    else if not (is_closing request.intent)
    then refused opening_order
    else if eqb_ℤ broker_position (pos 0)
    then refused already_flat
    else if not
        (eqb_ℤ broker_position (neg expected_quantity) || eqb_ℤ broker_position expected_quantity)
    then refused position_outside
    else signal_decision request broker_position open_signals expected_quantity

-- `_record_replay_frame`
unfoldable pub record_replay_frame : ℕ → ℕ → ℕ × Bool
record_replay_frame replay_processed replay_expected =
    (replay_processed + 1, leb replay_expected (replay_processed + 1))
