-- ===== src/IbExecutionClient.antt =====
-- app/ib_execution_client.py: the path of one trade request through the duplicate guard, the
-- execution ledger and the order factory to the broker.
mod Tests
pub mod Sent
pub mod Safety
pub mod Submission
pub mod Fresh
use bitcoin_trading_strategy.Shared.{
  ℕ, String, str_eq, Bool, true, false, ◌&&◌, not, Option, none, some, List, [], ◌∷◌, ◌++◌,
  if◌then◌else◌,
}
use bitcoin_trading_strategy.Shared.Int.{ℤ, pos, negsuc, eqb_ℤ}
use bitcoin_trading_strategy.Shared.Result.{Error, Result, ok, err, value_error}
use bitcoin_trading_strategy.Shared.Action.{
  Action, pure, raise, lift, raise_if, modify, zoom, on_error, ◌>>=◌, ◌>>◌,
}
use bitcoin_trading_strategy.Shared.Text.{strip, upper}
use bitcoin_trading_strategy.Protocol.{TradeRequest, intent_value}
use bitcoin_trading_strategy.DuplicateOrderGuard
use bitcoin_trading_strategy.DuplicateOrderGuard.{DuplicateOrderGuard, allowed}
use bitcoin_trading_strategy.ExecutionLedger
use bitcoin_trading_strategy.ExecutionLedger.{
  ExecutionStatus, reserved, same_status, ExecutionRecord, Ledger, mark_submitted, mark_rejected,
}
use bitcoin_trading_strategy.IbOrderFactory.{
  Contract, Order, IbOrderPackage, IbOrderFactory, create,
}

pub record IbSubmissionResult : Type 0 where
  pub event_id : String
  pub broker_order_id : ℕ
  pub order_package : IbOrderPackage
  pub ledger_record : ExecutionRecord

-- One invocation of `place_order_function`. `event_id` is that of the ledger record that was
-- marked SUBMITTED just before.
pub record BrokerCall : Type 0 where
  pub event_id : String
  pub order_id : ℕ
  pub contract : Contract
  pub order : Order

-- What the process and its database hold, and the invocations of the broker so far.
pub record Client : Type 0 where
  pub guard : DuplicateOrderGuard
  pub ledger : Ledger
  pub calls : List BrokerCall

abbrev pub new_client : Client
new_client = record {
  guard = DuplicateOrderGuard.empty;
  ledger = ExecutionLedger.empty;
  calls = [];
}

abbrev pub on_guard : {A : Type 0} → Action DuplicateOrderGuard A → Action Client A
on_guard = zoom (λ c. c.guard) (λ g c. record c { guard = g })

abbrev pub on_ledger : {A : Type 0} → Action Ledger A → Action Client A
on_ledger = zoom (λ c. c.ledger) (λ l c. record c { ledger = l })

-- The guard's `reserve`, and a `ValueError` where it reports a duplicate.
pub reserve_in_guard : TradeRequest → Action Client Unit
reserve_in_guard request = do
  decision ← on_guard (DuplicateOrderGuard.reserve request)
  raise_if (not (allowed decision)) value_error

-- `reserve_execution`
unfoldable pub reserve_execution : ℕ → TradeRequest → Action Client ExecutionRecord
unfolding reserve_in_guard
reserve_execution now request = do
  known ← on_ledger (ExecutionLedger.contains request.event_id)
  raise_if known value_error
  reserve_in_guard request
  on_error (on_ledger (ExecutionLedger.reserve now request))
      λ e. on_guard (DuplicateOrderGuard.release request.event_id) >> raise e

-- `_validate_broker_order_id`
unfoldable pub validate_order_id : ℤ → Result ℕ
validate_order_id (pos n) = ok n
validate_order_id (negsuc _) = err value_error

-- `_require_reserved_record_matches_request`: no field is among the mismatches.
unfoldable pub matches_request : ExecutionRecord → TradeRequest → Bool
matches_request record' request =
    str_eq record'.event_id request.event_id
    && str_eq record'.signal_id request.signal_id
    && str_eq (upper (strip record'.symbol)) (upper (strip request.symbol))
    && str_eq record'.intent (intent_value request.intent)
    && eqb_ℤ record'.quantity request.quantity

-- The existing record, which must be there, RESERVED, and made from this request.
pub require_reserved : Option ExecutionRecord → TradeRequest → Result ExecutionRecord
require_reserved none request = err value_error
require_reserved (some r) request =
    if not (same_status r.status reserved)
    then err value_error
    else if matches_request r request
    then ok r
    else err value_error

-- A restarted process has an empty guard: the event is put back.
pub restore_guard : TradeRequest → Bool → Action Client Unit
restore_guard request true = pure tt
restore_guard request false = reserve_in_guard request

module _
    -- what `place_order_function` does with an order: it returns or raises
    (place_order : ℕ → Contract → Order → Result (Unit {0})) (factory : IbOrderFactory) where
  -- The invocation of the broker.
  pub invoke_broker : ExecutionRecord → ℕ → IbOrderPackage → Action Client Unit
  invoke_broker submitted order_id order_package c = (
    place_order order_id order_package.contract order_package.order,
    record c {
      calls =
          c.calls
          ++ record {
            event_id = submitted.event_id;
            order_id = order_id;
            contract = order_package.contract;
            order = order_package.order;
          }
            ∷ [];
    },
  )

  -- The broker is invoked, and the result of the submission is built.
  pub deliver :
      TradeRequest → ℕ → IbOrderPackage → ExecutionRecord → Action Client IbSubmissionResult
  unfolding invoke_broker
  deliver request order_id order_package submitted = do
    invoke_broker submitted order_id order_package
    pure (record {
      event_id = request.event_id;
      broker_order_id = order_id;
      order_package = order_package;
      ledger_record = submitted;
    })

  -- The last steps of `submit_reserved`: SUBMITTED is persisted, then the broker is invoked.
  pub send : ℕ → TradeRequest → ℕ → IbOrderPackage → Action Client IbSubmissionResult
  unfolding deliver
  send now request order_id order_package =
      on_ledger (mark_submitted now request.event_id (pos order_id))
      >>= deliver request order_id order_package

  -- `submit_reserved`; `now` is the clock at its one write to the ledger.
  unfoldable pub submit_reserved : ℕ → TradeRequest → String → ℤ → Action Client IbSubmissionResult
  unfolding require_reserved restore_guard reserve_in_guard
  submit_reserved now request contract_month broker_order_id = do
    order_id ← lift (validate_order_id broker_order_id)
    existing ← on_ledger (ExecutionLedger.get request.event_id)
    lift (require_reserved existing request)
    seen ← on_guard (DuplicateOrderGuard.contains request.event_id)
    restore_guard request seen
    order_package ← on_error (lift (create factory request contract_month)) (λ e.
        on_ledger (
          mark_rejected now request.event_id
            "IB order construction failed before broker submission.")
        >> raise e)
    send now request order_id order_package

  -- `submit`, which reads the clock for the reservation and for the submission.
  unfoldable pub submit : ℕ → ℕ → TradeRequest → String → ℤ → Action Client IbSubmissionResult
  submit now later request contract_month broker_order_id = do
    order_id ← lift (validate_order_id broker_order_id)
    reserve_execution now request
    submit_reserved later request contract_month (pos order_id)
