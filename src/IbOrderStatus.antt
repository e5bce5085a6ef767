-- ===== src/IbOrderStatus.antt =====
-- app/ib_order_status_transport.py: the broker's orderStatus callbacks, translated into statuses of
-- the execution ledger.
mod Tests
pub mod Callbacks
pub mod Settled
pub mod Stored
use Prim.Native.Char.{code}
use bitcoin_trading_strategy.Shared.{
  ℕ, String, str_eq, Bool, true, false, ◌&&◌, ◌||◌, Option, none, some, List, [], ◌∷◌, filter, ltb,
  ◌==◌, if◌then◌else◌,
}
use bitcoin_trading_strategy.Shared.Decimal.{
  Decimal, Finite, of_int, lt_dec, validate_nonnegative_decimal,
}
use bitcoin_trading_strategy.Shared.Int.{ℤ, pos, negsuc}
use bitcoin_trading_strategy.Shared.Result.{Result, ok, err, value_error, key_error, runtime_error}
use bitcoin_trading_strategy.Shared.Action.{Action, pure, raise, lift, reads, ◌>>=◌}
use bitcoin_trading_strategy.Shared.Text.{validate_identifier, upper}
use bitcoin_trading_strategy.ExecutionLedger.{
  ExecutionStatus, reserved, submitted, acknowledged, partially_filled, filled, cancelled, rejected,
  same_status, status_in, ExecutionRecord, terminal, Ledger, all_records, mark_acknowledged,
  mark_partially_filled, mark_filled, mark_cancelled, mark_rejected,
}

pub data IbStatusOutcome : Type 0 where
  updated no_change ignored : IbStatusOutcome

pub record IbStatusResult : Type 0 where
  pub outcome : IbStatusOutcome
  pub broker_order_id : ℕ
  pub ib_status : String
  pub execution_record : ExecutionRecord

-- `_validate_broker_order_id`
unfoldable pub validate_order_id : ℤ → Result ℕ
validate_order_id (pos n) = ok n
validate_order_id (negsuc _) = err value_error

abbrev pub has_order_id : ℕ → ExecutionRecord → Bool
has_order_id order_id r = elim r.broker_order_id [ none ↦ false | some n ↦ n == order_id ]

-- No match, one match, or the `RuntimeError` of several.
unfoldable pub only_match : List ExecutionRecord → Result (Option ExecutionRecord)
only_match [] = ok none
only_match (r ∷ []) = ok (some r)
only_match (r ∷ s ∷ rest) = err runtime_error

-- `_find_record_by_broker_order_id`
unfoldable pub find_record_by_broker_order_id : ℕ → Ledger → Result (Option ExecutionRecord)
unfolding only_match
find_record_by_broker_order_id order_id l =
    only_match (filter (has_order_id order_id) (all_records l))

-- The record that a callback is about, or `KeyError`.
unfoldable pub known_record : Option ExecutionRecord → Result ExecutionRecord
known_record none = err key_error
known_record (some r) = ok r

-- `text.replace("_", "").replace(" ", "")`
without_separators : String → String
without_separators String.[] = String.[]
without_separators (String.◌∷◌ c s) =
    let rest = without_separators s in
    if code c == b'_' || code c == b' ' then rest else String.◌∷◌ c rest

abbrev text_in : String → List String → Bool
text_in t [] = false
text_in t (s ∷ rest) = str_eq t s || text_in t rest

abbrev pub acknowledged_ib_statuses : List String
acknowledged_ib_statuses = "PENDINGSUBMIT" ∷ "PRESUBMITTED" ∷ "SUBMITTED" ∷ []

abbrev pub cancelled_ib_statuses : List String
cancelled_ib_statuses = "CANCELLED" ∷ "APICANCELLED" ∷ []

-- `_determine_execution_status`. The informational statuses and all others have no counterpart.
unfoldable pub determine_execution_status : String → Finite → Finite → Option ExecutionStatus
unfolding without_separators
determine_execution_status ib_status filled_quantity remaining =
    let compact = upper (without_separators ib_status) in
    if str_eq compact "FILLED"
    then some filled
    else if text_in compact cancelled_ib_statuses
    then some cancelled
    else if lt_dec (of_int (pos 0)) filled_quantity && lt_dec (of_int (pos 0)) remaining
    then some partially_filled
    else if text_in compact acknowledged_ib_statuses
    then some acknowledged
    else none

-- `rank.get(status)`
abbrev pub rank : ExecutionStatus → Option ℕ
rank reserved = some 0
rank submitted = some 1
rank acknowledged = some 2
rank partially_filled = some 3
rank filled = some 4
rank cancelled = none
rank rejected = none

abbrev pub rank_below : Option ℕ → Option ℕ → Bool
rank_below (some a) (some b) = ltb a b
rank_below (some a) none = false
rank_below none b = false

-- `_is_stale_or_regressive`
unfoldable pub is_stale_or_regressive : ExecutionStatus → ExecutionStatus → Bool
is_stale_or_regressive current desired =
    if status_in current (cancelled ∷ rejected ∷ [])
    then true
    else if status_in desired (cancelled ∷ rejected ∷ [])
    then false
    else rank_below (rank desired) (rank current)

-- `_apply_transition`
unfoldable pub apply_transition :
    ℕ → ExecutionRecord → ExecutionStatus → Action Ledger ExecutionRecord
apply_transition now r acknowledged = mark_acknowledged now r.event_id
apply_transition now r partially_filled = mark_partially_filled now r.event_id
apply_transition now r filled = mark_filled now r.event_id
apply_transition now r cancelled =
    mark_cancelled now r.event_id (some "IB confirmed order cancellation.")
apply_transition now r _ = raise value_error

module _ (now order_id : ℕ) (ib_status : String) where
  abbrev pub result_of : IbStatusOutcome → ExecutionRecord → IbStatusResult
  result_of outcome r = record {
    outcome = outcome;
    broker_order_id = order_id;
    ib_status = ib_status;
    execution_record = r;
  }

  -- What `handle_order_status` does with the status that the callback stands for.
  unfoldable pub settle : ExecutionRecord → Option ExecutionStatus → Action Ledger IbStatusResult
  settle r none = pure (result_of ignored r)
  settle r (some desired) =
      if same_status r.status desired
      then pure (result_of no_change r)
      else if is_stale_or_regressive r.status desired
      then pure (result_of ignored r)
      else (do moved ← apply_transition now r desired; pure (result_of updated moved))

  -- What `handle_rejection` does with the record.
  unfoldable pub settle_rejection : String → ExecutionRecord → Action Ledger IbStatusResult
  settle_rejection why r =
      if same_status r.status rejected
      then pure (result_of no_change r)
      else if terminal r
      then pure (result_of ignored r)
      else (do moved ← mark_rejected now r.event_id why; pure (result_of updated moved))

-- `handle_order_status`
unfoldable pub handle_order_status :
    ℕ → ℤ → String → Option Decimal → Option Decimal → Action Ledger IbStatusResult
handle_order_status now broker_order_id status filled_quantity remaining = do
  order_id ← lift (validate_order_id broker_order_id)
  ib_status ← lift (validate_identifier status)
  f ← lift (validate_nonnegative_decimal filled_quantity)
  left ← lift (validate_nonnegative_decimal remaining)
  found ← reads (find_record_by_broker_order_id order_id)
  r ← lift (known_record found)
  settle now order_id ib_status r (determine_execution_status ib_status f left)

-- `handle_rejection`
unfoldable pub handle_rejection : ℕ → ℤ → String → Action Ledger IbStatusResult
handle_rejection now broker_order_id reason = do
  order_id ← lift (validate_order_id broker_order_id)
  why ← lift (validate_identifier reason)
  found ← reads (find_record_by_broker_order_id order_id)
  r ← lift (known_record found)
  settle_rejection now order_id "REJECTED" why r
