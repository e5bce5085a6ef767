-- ===== src/IbExecutionDetails/Settled.antt =====
-- What a callback of app/ib_execution_details_transport.py that returned has left behind.
use bitcoin_trading_strategy.IbExecutionDetails.{IbExecutionDetailsOutcome}
use mathlib.Core.Path.{subst}
use bitcoin_trading_strategy.Shared.{◌∙◌}
use bitcoin_trading_strategy.Shared.Result.{runtime_error}
use bitcoin_trading_strategy.IbExecutionDetails.Within.{record-ledger}
use bitcoin_trading_strategy.IbExecutionDetails.{no_change, updated}
use bitcoin_trading_strategy.Shared.Action.Zoom.{rest_after}
use bitcoin_trading_strategy.ExecutionLedger.{all_records}
use bitcoin_trading_strategy.Shared.{filter-All}
use bitcoin_trading_strategy.IbOrderStatus.Stored.{only_match-All}
use bitcoin_trading_strategy.ExecutionLedger.{allowed_transitions, normalize_reason}
use bitcoin_trading_strategy.IbOrderStatus.Settled.{legal_move, illegal_move}
use bitcoin_trading_strategy.IbExecutionDetails.{ExecutionRow, exec_key}
use bitcoin_trading_strategy.Shared.{
  ℕ, ◌≡◌, refl, sym, inl, inr, true, none, some, List, [], ◌∷◌, arith, Bool-cases, filter,
  if◌then◌else◌,
}
use bitcoin_trading_strategy.Shared.Result.{Result, ok, err}
use bitcoin_trading_strategy.Shared.Decimal.{Finite, of_int, eq_dec}
use bitcoin_trading_strategy.Shared.Table
use bitcoin_trading_strategy.Shared.Table.{find, IsKeyed}
use bitcoin_trading_strategy.Shared.Text.{validate_identifier}
use bitcoin_trading_strategy.Shared.Action.{pure, modify, ◌>>◌}
use bitcoin_trading_strategy.ExecutionLedger.{
  ExecutionStatus, partially_filled, filled, cancelled, rejected, same_status, status_in,
  ExecutionRecord, Ledger, record_key, mark_partially_filled, mark_filled, transition, moved_record,
  write_transition,
}
use bitcoin_trading_strategy.IbOrderStatus.{
  find_record_by_broker_order_id, has_order_id, only_match,
}
use bitcoin_trading_strategy.IbExecutionDetails.{
  Database, IbExecutionDetailsResult, duplicate, Callback, row_of, result_of, record_execution_id,
  advance, settle, settle_open, settle_filled, execution_id_exists,
}
use bitcoin_trading_strategy.IbExecutionDetails.Found.{find-move}

-- The execution is on record, and the record that the callback returned is the one that its order
-- identifier finds.
abbrev pub IsLeft : Callback → ExecutionRecord → IbExecutionDetailsResult → Database → Type 0
IsLeft c r result d =
    let r' = result.execution_record in
    (execution_id_exists c.exec_id d ≡ true)
    × (find_record_by_broker_order_id c.order_id d.ledger ≡ ok (some r'))
    × (r' ≡ moved_record r'.status r.broker_order_id r'.reason r'.updated_at r)
    × (result ≡ result_of c result.outcome r')

carries :
    (order_id : ℕ) (r : ExecutionRecord) (rs : List ExecutionRecord)
    → only_match (filter (has_order_id order_id) rs) ≡ ok (some r)
    → r.broker_order_id ≡ some order_id
carries order_id r rs h =
    let hit : has_order_id order_id r ≡ true =
      only_match-All (λ x. has_order_id order_id x ≡ true) _ r
        (filter-All (has_order_id order_id) rs) h in
    ground (arith, hit)

-- A move that `transition` made of the record.
transition_moved :
    (now : ℕ) (s : ExecutionStatus) (r moved : ExecutionRecord) (l l' : Ledger) (order_id : ℕ)
    → validate_identifier r.event_id ≡ ok r.event_id
    → find record_key r.event_id l.records ≡ some r
    → r.broker_order_id ≡ some order_id
    → transition now r.event_id s none none l ≡ (ok moved, l')
    → (moved ≡ moved_record s (some order_id) none now r)
      × (l' ≡ write_transition r.event_id r s (some order_id) none now l)
unfolding normalize_reason
transition_moved now s r moved l l' order_id n f b h =
    elim (Bool-cases (status_in s (allowed_transitions r.status))) [
      | inl a ↦
          (let e = legal_move now order_id "" l r f n s none refl a in
            (ground (arith, b, e), ground (arith, b, e)))
      | inr a ↦ (let e = illegal_move now order_id "" l r f n s none refl a in cc)
    ]

recorded :
    (row : ExecutionRow) (d : Database)
    → execution_id_exists row.exec_id (record_execution_id row d) ≡ true
unfolding execution_id_exists record_execution_id
recorded row d = ground (arith, Table.find_new exec_key row d.ib_execution_details)

module _ (order_id : ℕ) (r : ExecutionRecord) (l : Ledger) (keyed : IsKeyed record_key l.records)
    (normal : validate_identifier r.event_id ≡ ok r.event_id)
    (stored : find record_key r.event_id l.records ≡ some r)
    (matched : find_record_by_broker_order_id order_id l ≡ ok (some r)) where
  -- The record that its order identifier finds after a move.
  abbrev IsFound : ExecutionRecord → Ledger → Type 0
  IsFound moved l' =
      (find_record_by_broker_order_id order_id l' ≡ ok (some moved))
      × (moved ≡ moved_record moved.status r.broker_order_id moved.reason moved.updated_at r)

  carried : r.broker_order_id ≡ some order_id
  unfolding find_record_by_broker_order_id
  carried = carries order_id r (all_records l) matched

  transition-IsFound :
      (now : ℕ) (s : ExecutionStatus) (moved : ExecutionRecord) (l' : Ledger)
      → transition now r.event_id s none none l ≡ (ok moved, l')
      → IsFound moved l'
  transition-IsFound now s moved l' h =
      let (a, b) = transition_moved now s r moved l l' order_id normal stored carried h in
      rw a (
        rw b (
          find-move r.event_id s none now order_id l r keyed matched stored carried,
          rw carried refl,
        ))

  advance-IsFound :
      (now : ℕ) (q : Finite) (moved : ExecutionRecord) (l' : Ledger)
      → advance now q r l ≡ (ok moved, l')
      → IsFound moved l'
  unfolding advance mark_filled mark_partially_filled
  advance-IsFound now q moved l' h = elim (Bool-cases (eq_dec q (of_int r.quantity))) [
    | inl p ↦ transition-IsFound now filled moved l' (rw p at h)
    | inr p ↦ elim (Bool-cases (same_status r.status partially_filled)) [
      | inl t ↦
          (let e : (ok r, l) ≡ (ok moved, l') = rw t at (rw p at h) in
            (ground (arith, e, matched), ground (arith, e)))
      | inr t ↦ transition-IsFound now partially_filled moved l' (rw t at (rw p at h))
    ]
  ]

-- The end of `settle_open`, by how the call on the ledger ended.
abbrev opened :
    Callback
    → ExecutionRecord
    → Database
    → Result ExecutionRecord × Ledger
    → Result IbExecutionDetailsResult × Database
opened c r d o =
    rest_after (λ d. d.ledger) (λ l d. record d { ledger = l }) (advance c.now c.cumulative r)
      (λ moved.
        modify (record_execution_id (row_of c r))
        >> pure
            (result_of c (if same_status moved.status r.status then no_change else updated) moved))
      d o

settle_open-opened :
    (c : Callback) (r : ExecutionRecord) (d : Database)
    → settle_open c r d ≡ opened c r d (advance c.now c.cumulative r d.ledger)
unfolding settle_open
settle_open-opened c r d = refl

-- The parts of a `settle_open` that returned.
open_parts :
    (c : Callback) (r : ExecutionRecord) (d d' : Database) (result : IbExecutionDetailsResult)
    (o : Result ExecutionRecord × Ledger)
    → opened c r d o ≡ (ok result, d')
    → (moved : ExecutionRecord) × (l' : Ledger) × (o ≡ (ok moved, l'))
      × (d' ≡ record_execution_id (row_of c r) (record d { ledger = l' }))
      × (result ≡ result_of c result.outcome moved)
open_parts c r d d' result (ok moved, l') h =
    (moved, l', refl, ground (arith, h), ground (arith, h))
open_parts c r d d' result (err x, l') h = ground (arith, h)

opened-IsLeft :
    (c : Callback) (r : ExecutionRecord) (d : Database) (outcome : IbExecutionDetailsOutcome)
    (moved : ExecutionRecord) (l' : Ledger)
    → (find_record_by_broker_order_id c.order_id l' ≡ ok (some moved))
      × (moved ≡ moved_record moved.status r.broker_order_id moved.reason moved.updated_at r)
    → IsLeft c r
        (result_of c outcome moved)
        (record_execution_id (row_of c r) (record d { ledger = l' }))
opened-IsLeft c r d outcome moved l' (f, m) = (
  recorded (row_of c r) (record d { ledger = l' }),
  rw (record-ledger (row_of c r) (record d { ledger = l' })) f,
  m,
  refl,
)

module _ (c : Callback) (r : ExecutionRecord) (d d' : Database) (result : IbExecutionDetailsResult)
    (keyed : IsKeyed record_key d.ledger.records)
    (normal : validate_identifier r.event_id ≡ ok r.event_id)
    (stored : find record_key r.event_id d.ledger.records ≡ some r)
    (matched : find_record_by_broker_order_id c.order_id d.ledger ≡ ok (some r)) where
  settle_open-IsLeft : settle_open c r d ≡ (ok result, d') → IsLeft c r result d'
  settle_open-IsLeft h =
      let (moved, l', a, e, q) =
        open_parts c r d d' result _ (sym (settle_open-opened c r d) ∙ h) in
      let (f, m) =
        advance-IsFound c.order_id r d.ledger keyed normal stored matched c.now c.cumulative moved
          l' a in
      subst (λ x. IsLeft c r x d') (sym q)
        (subst (λ x. IsLeft c r (result_of c result.outcome moved) x) (sym e)
          (opened-IsLeft c r d result.outcome moved l' (f, m)))

  settle_filled-IsLeft : settle_filled c r d ≡ (ok result, d') → IsLeft c r result d'
  unfolding settle_filled
  settle_filled-IsLeft h =
      let q : result ≡ result_of c no_change r = ground (arith, h) in
      let e : d' ≡ record_execution_id (row_of c r) d = ground (arith, h) in
      rw q (rw e (recorded (row_of c r) d, rw (record-ledger (row_of c r) d) matched, refl, refl))

  pub settle-IsLeft : settle c r d ≡ (ok result, d') → IsLeft c r result d'
  unfolding settle
  settle-IsLeft h = elim (Bool-cases (execution_id_exists c.exec_id d)) [
    | inl p ↦
        (let g : (ok (result_of c duplicate r), d) ≡ (ok result, d') = rw p at h in
          let q : result ≡ result_of c duplicate r = ground (arith, g) in
          let e : d' ≡ d = ground (arith, g) in rw q (rw e (p, matched, refl, refl)))
    | inr p ↦ elim (Bool-cases (status_in r.status (cancelled ∷ rejected ∷ []))) [
      | inl q ↦
          (let g : (err runtime_error, d) ≡ (ok result, d') = rw q at (rw p at h) in
            ground (arith, g))
      | inr q ↦ elim (Bool-cases (same_status r.status filled)) [
        | inl t ↦ settle_filled-IsLeft (rw t at (rw q at (rw p at h)))
        | inr t ↦ settle_open-IsLeft (rw t at (rw q at (rw p at h)))
      ]
    ]
  ]
