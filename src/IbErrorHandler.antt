-- ===== src/IbErrorHandler.antt =====
-- app/ib_error_handler.py: what the broker's error messages do to the kill switch and the ledger.
mod Tests
pub mod Latch
use bitcoin_trading_strategy.Shared.{
  ℕ, zero, suc, String, Bool, true, false, ◌||◌, Option, none, some, List, [], ◌∷◌, filter, ◌==◌,
  if◌then◌else◌,
}
use bitcoin_trading_strategy.Shared.Int.{ℤ, pos, negsuc}
use bitcoin_trading_strategy.Shared.Result.{Result, ok, err, value_error, runtime_error}
use bitcoin_trading_strategy.Shared.Text.{validate_identifier, append_text, text_of_number}
use bitcoin_trading_strategy.Shared.Action.{
  Action, pure, lift, raise, modify, zoom, gets, ◌>>=◌, ◌>>◌,
}
use bitcoin_trading_strategy.KillSwitch.{KillSwitch, activate}
use bitcoin_trading_strategy.ExecutionLedger.{
  ExecutionRecord, ExecutionStatus, cancelled, rejected, same_status, terminal, Ledger, all_records,
  mark_cancelled, mark_rejected,
}
use bitcoin_trading_strategy.IbOrderStatus.{has_order_id}

pub data IbErrorSeverity : Type 0 where
  information warning order_rejected order_cancelled : IbErrorSeverity
  connection_lost connection_restored critical unknown : IbErrorSeverity

pub record IbErrorResult : Type 0 where
  pub request_id : ℤ
  pub error_code : ℕ
  pub message : String
  pub severity : IbErrorSeverity
  pub trading_blocked : Bool
  pub execution_record : Option ExecutionRecord

-- The objects that the handler changes.
pub record Broker : Type 0 where
  pub ledger : Ledger
  pub kill_switch : KillSwitch

abbrev pub information_codes : List ℕ
information_codes = 2104 ∷ 2106 ∷ 2107 ∷ 2108 ∷ 2158 ∷ []

abbrev pub warning_codes : List ℕ
warning_codes = 2100 ∷ 2101 ∷ 2102 ∷ 2103 ∷ 2105 ∷ 2109 ∷ 2137 ∷ 2168 ∷ 2169 ∷ []

abbrev pub connection_lost_codes : List ℕ
connection_lost_codes = 502 ∷ 1100 ∷ 2110 ∷ []

abbrev pub connection_restored_codes : List ℕ
connection_restored_codes = 1101 ∷ 1102 ∷ []

abbrev pub critical_codes : List ℕ
critical_codes = 100 ∷ 103 ∷ 1300 ∷ 503 ∷ 504 ∷ 507 ∷ 10015 ∷ []

abbrev pub code_in : ℕ → List ℕ → Bool
code_in code [] = false
code_in code (c ∷ cs) = code == c || code_in code cs

-- The branches of `handle`, in their order.
unfoldable pub severity_of : ℕ → IbErrorSeverity
severity_of code =
    if code_in code information_codes
    then information
    else if code_in code connection_restored_codes
    then connection_restored
    else if code_in code connection_lost_codes
    then connection_lost
    else if code_in code critical_codes
    then critical
    else if code == 201
    then order_rejected
    else if code == 202
    then order_cancelled
    else if code_in code warning_codes
    then warning
    else unknown

-- `_validate_request_id`: at least -1.
unfoldable pub validate_request_id : ℤ → Result ℤ
validate_request_id (pos n) = ok (pos n)
validate_request_id (negsuc zero) = ok (negsuc 0)
validate_request_id (negsuc (suc _)) = err value_error

-- `_validate_error_code`
unfoldable pub validate_error_code : ℤ → Result ℕ
validate_error_code (pos n) = ok n
validate_error_code (negsuc _) = err value_error

abbrev pub on_ledger : {A : Type 0} → Action Ledger A → Action Broker A
on_ledger = zoom (λ b. b.ledger) (λ l b. record b { ledger = l })

abbrev pub on_kill_switch : {A : Type 0} → Action KillSwitch A → Action Broker A
on_kill_switch = zoom (λ b. b.kill_switch) (λ k b. record b { kill_switch = k })

-- `f"IB error {error_code}: {message}"`
unfoldable pub error_text : ℕ → String → String
error_text code message =
    append_text "IB error " (append_text (text_of_number code) (append_text ": " message))

unfoldable pub ambiguous_text : ℕ → String
ambiguous_text order_id =
    append_text "Multiple BTS execution records use IB broker order ID "
      (append_text (text_of_number order_id) ".")

-- The end of `_find_record_by_broker_order_id`.
unfoldable pub one_record : ℕ → ℕ → List ExecutionRecord → Action Broker (Option ExecutionRecord)
unfolding ambiguous_text
one_record now order_id [] = pure none
one_record now order_id (r ∷ []) = pure (some r)
one_record now order_id (_ ∷ _ ∷ _) = do
  on_kill_switch (activate now (ambiguous_text order_id))
  raise runtime_error

-- `_find_record_by_broker_order_id`
unfoldable pub find_record : ℕ → ℤ → Action Broker (Option ExecutionRecord)
unfolding one_record
find_record now (negsuc _) = pure none
find_record now (pos order_id) = do
  rs ← gets (λ b. filter (has_order_id order_id) (all_records b.ledger))
  one_record now order_id rs

-- The fields of a message, once they are read.
pub record Message : Type 0 where
  pub request_id : ℤ
  pub error_code : ℕ
  pub message : String

-- `_result`
unfoldable pub result :
    Message → IbErrorSeverity → Option ExecutionRecord → Action Broker IbErrorResult
result m severity r = gets (λ b. record {
  request_id = m.request_id;
  error_code = m.error_code;
  message = m.message;
  severity = severity;
  trading_blocked = b.kill_switch.active;
  execution_record = r;
})

-- `_handle_order_rejection`, once the record is looked for.
unfoldable pub settle_rejected : ℕ → Message → Option ExecutionRecord → Action Broker IbErrorResult
unfolding result
settle_rejected now m none = result m order_rejected none
settle_rejected now m (some r) =
    if same_status r.status rejected || terminal r then result m order_rejected (some r) else (do
      moved ← on_ledger (mark_rejected now r.event_id (error_text m.error_code m.message))
      result m order_rejected (some moved))

-- `_handle_order_cancellation`, once the record is looked for.
unfoldable pub settle_cancelled : ℕ → Message → Option ExecutionRecord → Action Broker IbErrorResult
unfolding result
settle_cancelled now m none = result m order_cancelled none
settle_cancelled now m (some r) =
    if same_status r.status cancelled || terminal r then result m order_cancelled (some r) else (do
      moved ← on_ledger (mark_cancelled now r.event_id (some (error_text m.error_code m.message)))
      result m order_cancelled (some moved))

-- The action of each branch of `handle`.
unfoldable pub act : ℕ → Message → IbErrorSeverity → Action Broker IbErrorResult
unfolding result
act now m critical = do
  on_kill_switch (activate now (error_text m.error_code m.message))
  result m critical none
act now m order_rejected = do found ← find_record now m.request_id; settle_rejected now m found
act now m order_cancelled = do found ← find_record now m.request_id; settle_cancelled now m found
act now m severity = result m severity none

-- `handle`
unfoldable pub handle : ℕ → ℤ → ℤ → String → Action Broker IbErrorResult
handle now request_id error_code message = do
  id ← lift (validate_request_id request_id)
  code ← lift (validate_error_code error_code)
  text ← lift (validate_identifier message)
  act now (record { request_id = id; error_code = code; message = text }) (severity_of code)
