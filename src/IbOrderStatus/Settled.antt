-- ===== src/IbOrderStatus/Settled.antt =====
-- Which callbacks of app/ib_order_status_transport.py reach the record that they are about.
use bitcoin_trading_strategy.Shared.{
  ℕ, String, ◌≡◌, refl, Bool, true, false, ◌&&◌, not, Option, none, some, List, arith, eq_refl,
}
use bitcoin_trading_strategy.Shared.Int.{pos}
use bitcoin_trading_strategy.Shared.Result.{ok, err, value_error}
use bitcoin_trading_strategy.Shared.Table
use bitcoin_trading_strategy.Shared.Table.{find}
use bitcoin_trading_strategy.Shared.Decimal.{Decimal, Finite, validate_nonnegative_decimal}
use bitcoin_trading_strategy.Shared.Text.{validate_identifier, strip, is_space}
use bitcoin_trading_strategy.ExecutionLedger.{
  ExecutionStatus, reserved, submitted, acknowledged, partially_filled, filled, cancelled, rejected,
  same_status, status_in, allowed_transitions, ExecutionRecord, Ledger, empty, record_key,
  moved_record, write_transition, get, transition, normalize_reason, validate_broker_order_id,
  mark_acknowledged, mark_partially_filled, mark_filled, mark_cancelled,
}
use bitcoin_trading_strategy.Shared.Action.{pure, ◌>>=◌}
use bitcoin_trading_strategy.ExecutionLedger.Runs.{Call, run}
use bitcoin_trading_strategy.IbOrderStatus.Stored.{run_stored, run_normal}
use bitcoin_trading_strategy.IbOrderStatus.{
  updated, result_of, handle_order_status, settle, apply_transition, validate_order_id,
  find_record_by_broker_order_id, known_record, is_stale_or_regressive, determine_execution_status,
}

-- The reason that a cancellation is recorded with.
abbrev pub reason_for : ExecutionStatus → Option String
reason_for cancelled = some "IB confirmed order cancellation."
reason_for _ = none

-- What the handler reports about a transition: the order has left RESERVED, the status is a new
-- one and not an older one.
abbrev pub is_news : ExecutionStatus → ExecutionStatus → Bool
is_news current desired =
    not (same_status current reserved)
    && not (same_status current desired)
    && not (is_stale_or_regressive current desired)

-- No text of the broker stands for a rejection.
never_rejected :
    (text : String) (f left : Finite) (d : ExecutionStatus)
    → determine_execution_status text f left ≡ some d
    → same_status d rejected ≡ false
unfolding determine_execution_status
never_rejected text f left d h = ground arith

module _ (now order_id : ℕ) (text : String) (l : Ledger) (r : ExecutionRecord)
    (stored : find record_key r.event_id l.records ≡ some r)
    (normal : validate_identifier r.event_id ≡ ok r.event_id) where
  -- A legal move of the record that is stored.
  pub legal_move :
      (d : ExecutionStatus) (w : Option String)
      → normalize_reason w ≡ ok w
      → status_in d (allowed_transitions r.status) ≡ true
      → transition now r.event_id d none w l ≡ (
        ok (moved_record d r.broker_order_id w now r),
        write_transition r.event_id r d r.broker_order_id w now l,
      )
  unfolding transition get validate_broker_order_id write_transition
  legal_move d w n h = ground (
    arith,
    stored,
    normal,
    n,
    h,
    eq_refl r.event_id,
    Table.find-update record_key (moved_record d r.broker_order_id w now) (λ x. refl) r.event_id
        r.event_id l.records,
  )

  pub illegal_move :
      (d : ExecutionStatus) (w : Option String)
      → normalize_reason w ≡ ok w
      → status_in d (allowed_transitions r.status) ≡ false
      → transition now r.event_id d none w l ≡ (err value_error, l)
  unfolding transition get validate_broker_order_id
  illegal_move d w n h = ground (arith, stored, normal, n, h)

  -- `_apply_transition` is one call of `transition`, for the statuses that a text can stand for.
  apply_transition-eq-transition :
      (d : ExecutionStatus)
      → same_status d reserved ≡ false
      → same_status d submitted ≡ false
      → same_status d rejected ≡ false
      → apply_transition now r d l ≡ transition now r.event_id d none (reason_for d) l
  unfolding apply_transition mark_acknowledged mark_partially_filled mark_filled mark_cancelled
  apply_transition-eq-transition reserved a b c = cc
  apply_transition-eq-transition submitted a b c = cc
  apply_transition-eq-transition acknowledged a b c = refl
  apply_transition-eq-transition partially_filled a b c = refl
  apply_transition-eq-transition filled a b c = refl
  apply_transition-eq-transition cancelled a b c = refl
  apply_transition-eq-transition rejected a b c = cc

  normal_reason : (d : ExecutionStatus) → normalize_reason (reason_for d) ≡ ok (reason_for d)
  unfolding normalize_reason validate_identifier strip is_space
  normal_reason reserved = refl
  normal_reason submitted = refl
  normal_reason acknowledged = refl
  normal_reason partially_filled = refl
  normal_reason filled = refl
  normal_reason cancelled = refl
  normal_reason rejected = refl

-- News that the table of transitions allows: all but a cancellation after FILLED.
news_allowed :
    (current d : ExecutionStatus)
    → same_status d rejected ≡ false
    → is_news current d ≡ true
    → status_in d (allowed_transitions current) ≡ not (same_status current filled)
unfolding allowed_transitions is_stale_or_regressive
news_allowed current d a h = ground arith

-- The only news of a FILLED record.
filled_news :
    (current d : ExecutionStatus)
    → same_status current filled ≡ true
    → same_status d rejected ≡ false
    → is_news current d ≡ true
    → d ≡ cancelled
unfolding is_stale_or_regressive
filled_news current d f a h = ground arith

news_reached :
    (current d : ExecutionStatus)
    → is_news current d ≡ true
    → (same_status d reserved ≡ false) × (same_status d submitted ≡ false)
unfolding is_stale_or_regressive
news_reached current d h = (ground arith, ground arith)

module _ (cs : List Call) (now order_id : ℕ) (status text : String)
    (filled_quantity remaining : Option Decimal) (f left : Finite) (r : ExecutionRecord)
    (d : ExecutionStatus) (text_valid : validate_identifier status ≡ ok text)
    (filled_valid : validate_nonnegative_decimal filled_quantity ≡ ok f)
    (remaining_valid : validate_nonnegative_decimal remaining ≡ ok left)
    (matched : find_record_by_broker_order_id order_id (run cs empty) ≡ ok (some r))
    (desired : determine_execution_status text f left ≡ some d)
    (news : is_news r.status d ≡ true) where
  handled-eq-transition :
      handle_order_status now (pos order_id) status filled_quantity remaining (run cs empty)
      ≡ (transition now r.event_id d none (reason_for d) >>= λ moved.
            pure (result_of now order_id text updated moved))
          (run cs empty)
  unfolding handle_order_status validate_order_id known_record settle
  handled-eq-transition = ground (
    arith,
    text_valid,
    filled_valid,
    remaining_valid,
    matched,
    desired,
    news,
    apply_transition-eq-transition now order_id text (run cs empty) r
        (run_stored cs order_id r matched) (run_normal cs order_id r matched) d
        (news_reached r.status d news).0 (news_reached r.status d news).1
        (never_rejected text f left d desired),
  )

  -- In a ledger that any calls of reserve and transition made of a new one, a callback with a valid
  -- order identifier, text and quantities, whose text stands for a status, about an order that
  -- exactly one record carries, is recorded where its status is news and the record is not FILLED:
  -- the record has left RESERVED, and the status is neither the record's nor one that the handler
  -- takes for older. Then handle_order_status returns `updated` with the record moved to that
  -- status, and writes just that move to the ledger.
  pub news_recorded :
      same_status r.status filled ≡ false
      → handle_order_status now (pos order_id) status filled_quantity remaining (run cs empty) ≡ (
        ok (
            result_of now order_id text updated
              (moved_record d r.broker_order_id (reason_for d) now r)),
        write_transition r.event_id r d r.broker_order_id (reason_for d) now (run cs empty),
      )
  news_recorded h =
      let s = run_stored cs order_id r matched in
      let n = run_normal cs order_id r matched in
      let l = run cs empty in
      let a = news_allowed r.status d (never_rejected text f left d desired) news in
      let w = normal_reason now order_id text l r s n d in
      ground (
        arith,
        handled-eq-transition,
        legal_move now order_id text l r s n d (reason_for d) w (ground (arith, a)),
      )

  -- In a ledger that any calls of reserve and transition made of a new one, a callback with a valid
  -- order identifier, text and quantities, whose text stands for a status, about an order that
  -- exactly one record carries, and whose status is neither the record's nor one that the handler
  -- takes for older, can only stand for CANCELLED where the record is FILLED, and then
  -- handle_order_status raises `ValueError` and changes nothing.
  pub late_cancel_raises :
      same_status r.status filled ≡ true
      → (d ≡ cancelled)
        × (handle_order_status now (pos order_id) status filled_quantity remaining (run cs empty)
            ≡ (err value_error, run cs empty))
  late_cancel_raises h =
      let s = run_stored cs order_id r matched in
      let n = run_normal cs order_id r matched in
      let l = run cs empty in
      let a = news_allowed r.status d (never_rejected text f left d desired) news in
      let w = normal_reason now order_id text l r s n d in
      let moved = illegal_move now order_id text l r s n d (reason_for d) w (ground (arith, a)) in
      (
        filled_news r.status d h (never_rejected text f left d desired) news,
        ground (arith, handled-eq-transition, moved),
      )
