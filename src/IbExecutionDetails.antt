-- ===== src/IbExecutionDetails.antt =====
-- app/ib_execution_details_transport.py: the broker's execDetails callbacks, which report fills.
mod Tests
mod Checks
unfoldable pub use Checks.{
  normalize_optional_execution_time, validate_contract, expected_side, validate_execution_side,
}
pub mod Found
pub mod Settled
pub mod Replay
pub mod Within
use bitcoin_trading_strategy.Shared.{
  ℕ, String, str_eq, Bool, true, false, ◌||◌, Option, none, some, List, [], ◌∷◌, ◌++◌, is_some,
  length, if◌then◌else◌,
}
use bitcoin_trading_strategy.Shared.Decimal.{
  Decimal, Finite, of_int, lt_dec, eq_dec, validate_positive_decimal,
}
use bitcoin_trading_strategy.Shared.Int.{ℤ}
use bitcoin_trading_strategy.Shared.Result.{ok, err, value_error, runtime_error}
use bitcoin_trading_strategy.Shared.Action.{
  Action, pure, lift, gets, reads, raise_if, modify, zoom, ◌>>=◌, ◌>>◌,
}
use bitcoin_trading_strategy.Shared.Table.{find}
use bitcoin_trading_strategy.Shared.Text.{validate_identifier}
use bitcoin_trading_strategy.ExecutionLedger.{
  ExecutionStatus, partially_filled, filled, cancelled, rejected, same_status, status_in,
  ExecutionRecord, Ledger, mark_partially_filled, mark_filled,
}
use bitcoin_trading_strategy.IbOrderFactory.{Contract}
use bitcoin_trading_strategy.IbOrderStatus.{
  validate_order_id, find_record_by_broker_order_id, known_record,
}

pub data IbExecutionDetailsOutcome : Type 0 where
  updated no_change duplicate : IbExecutionDetailsOutcome

pub record IbExecutionDetailsResult : Type 0 where
  pub outcome : IbExecutionDetailsOutcome
  pub broker_order_id : ℕ
  pub exec_id : String
  pub cumulative_quantity : Finite
  pub execution_record : ExecutionRecord

-- The attributes that the code reads of an `Execution` of ibapi.
pub record Execution : Type 0 where
  pub order_id : ℤ
  pub exec_id : String
  pub side : String
  pub shares : Option Decimal
  pub cum_qty : Option Decimal
  pub time : Option String

-- A row of the table `ib_execution_details`; the quantity is kept as a number.
pub record ExecutionRow : Type 0 where
  pub exec_id : String
  pub event_id : String
  pub broker_order_id : ℕ
  pub cumulative_quantity : Finite
  pub ib_execution_time : Option String
  pub callback_received_at_utc : ℕ

-- The database: the tables of the ledger, and this one.
pub record Database : Type 0 where
  pub ledger : Ledger
  pub ib_execution_details : List ExecutionRow

abbrev pub on_ledger : {A : Type 0} → Action Ledger A → Action Database A
on_ledger = zoom (λ d. d.ledger) (λ l d. record d { ledger = l })

abbrev pub exec_key : ExecutionRow → String
exec_key row = row.exec_id

-- `_execution_id_exists`
unfoldable pub execution_id_exists : String → Database → Bool
execution_id_exists exec_id d = is_some (find exec_key exec_id d.ib_execution_details)

-- `contains_execution`
unfoldable pub contains_execution : String → Action Database Bool
unfolding execution_id_exists
contains_execution exec_id = do
  key ← lift (validate_identifier exec_id)
  gets (execution_id_exists key)

-- `processed_execution_count`
unfoldable pub processed_execution_count : Database → ℕ
processed_execution_count d = length d.ib_execution_details

-- `_record_execution_id`: the INSERT, or nothing where the primary key is taken.
unfoldable pub record_execution_id : ExecutionRow → Database → Database
record_execution_id row d =
    if is_some (find exec_key row.exec_id d.ib_execution_details)
    then d
    else record d { ib_execution_details = d.ib_execution_details ++ row ∷ [] }

-- The status that the cumulative quantity stands for; a second partial fill writes nothing.
unfoldable pub advance : ℕ → Finite → ExecutionRecord → Action Ledger ExecutionRecord
advance now cumulative r =
    if eq_dec cumulative (of_int r.quantity)
    then mark_filled now r.event_id
    else if same_status r.status partially_filled
    then pure r
    else mark_partially_filled now r.event_id

-- One callback, once its fields are read: the clock at its arrival and at the write to the ledger,
-- and the normalised fields.
pub record Callback : Type 0 where
  pub received : ℕ
  pub now : ℕ
  pub order_id : ℕ
  pub exec_id : String
  pub cumulative : Finite
  pub time : Option String

abbrev pub result_of :
    Callback → IbExecutionDetailsOutcome → ExecutionRecord → IbExecutionDetailsResult
result_of c outcome r = record {
  outcome = outcome;
  broker_order_id = c.order_id;
  exec_id = c.exec_id;
  cumulative_quantity = c.cumulative;
  execution_record = r;
}

abbrev pub row_of : Callback → ExecutionRecord → ExecutionRow
row_of c r = record {
  exec_id = c.exec_id;
  event_id = r.event_id;
  broker_order_id = c.order_id;
  cumulative_quantity = c.cumulative;
  ib_execution_time = c.time;
  callback_received_at_utc = c.received;
}

-- The end of `handle_execution` on an execution that is new and a record that is not final.
unfoldable pub settle_open : Callback → ExecutionRecord → Action Database IbExecutionDetailsResult
unfolding advance record_execution_id
settle_open c r = do
  moved ← on_ledger (advance c.now c.cumulative r)
  modify (record_execution_id (row_of c r))
  pure (result_of c (if same_status moved.status r.status then no_change else updated) moved)

unfoldable pub settle_filled : Callback → ExecutionRecord → Action Database IbExecutionDetailsResult
unfolding record_execution_id
settle_filled c r = do modify (record_execution_id (row_of c r)); pure (result_of c no_change r)

-- `handle_execution` from the test for a duplicate on.
unfoldable pub settle : Callback → ExecutionRecord → Action Database IbExecutionDetailsResult
unfolding execution_id_exists
settle c r d =
    if execution_id_exists c.exec_id d
    then (ok (result_of c duplicate r), d)
    else if status_in r.status (cancelled ∷ rejected ∷ [])
    then (err runtime_error, d)
    else if same_status r.status filled
    then settle_filled c r d
    else settle_open c r d

-- `handle_execution` from the search for the record on.
unfoldable pub settle_matched :
    Callback → String → String → Action Database IbExecutionDetailsResult
settle_matched c symbol side = do
  found ← on_ledger (reads (find_record_by_broker_order_id c.order_id))
  r ← lift (known_record found)
  lift (validate_contract symbol r)
  lift (validate_execution_side side r)
  raise_if (lt_dec (of_int r.quantity) c.cumulative) runtime_error
  settle c r

-- `handle_execution`
unfoldable pub handle_execution :
    ℕ → ℕ → Contract → Execution → Action Database IbExecutionDetailsResult
handle_execution received now contract execution = do
  order_id ← lift (validate_order_id execution.order_id)
  exec_id ← lift (validate_identifier execution.exec_id)
  shares ← lift (validate_positive_decimal execution.shares)
  cumulative ← lift (validate_positive_decimal execution.cum_qty)
  raise_if (lt_dec cumulative shares) value_error
  let time = normalize_optional_execution_time execution.time
  settle_matched
      (record {
        received = received;
        now = now;
        order_id = order_id;
        exec_id = exec_id;
        cumulative = cumulative;
        time = time;
      })
      contract.symbol execution.side
