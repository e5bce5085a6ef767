-- ===== src/IbExecutionDetails/Replay.antt =====
-- A callback of app/ib_execution_details_transport.py that is delivered again.
use mathlib.Core.Path.{subst, ap}
use bitcoin_trading_strategy.Shared.{
  ℕ, String, ◌≡◌, refl, sym, ◌∙◌, inl, inr, true, false, Option, none, some, List, arith,
  Bool-cases,
}
use bitcoin_trading_strategy.Shared.Result.{Result, Result-cases, ok, err, runtime_error}
use bitcoin_trading_strategy.Shared.Decimal.{of_int, lt_dec, validate_positive_decimal, Finite}
use bitcoin_trading_strategy.Shared.Text.{validate_identifier}
use bitcoin_trading_strategy.Shared.Table
use bitcoin_trading_strategy.Shared.Table.{find}
use bitcoin_trading_strategy.Shared.Action.{Action, lift, raise_if, ◌>>=◌, ◌>>◌}
use bitcoin_trading_strategy.ExecutionLedger.{ExecutionRecord, record_key, moved_record}
use bitcoin_trading_strategy.IbOrderFactory.{Contract}
use bitcoin_trading_strategy.IbOrderStatus.{
  find_record_by_broker_order_id, known_record, validate_order_id,
}
use bitcoin_trading_strategy.IbOrderStatus.Stored.{All-matched, IsNormal}
use bitcoin_trading_strategy.IbExecutionDetails.{
  Database, Execution, IbExecutionDetailsResult, duplicate, Callback, result_of, settle,
  settle_matched, handle_execution, execution_id_exists, validate_contract, validate_execution_side,
  normalize_optional_execution_time,
}
use bitcoin_trading_strategy.IbExecutionDetails.Settled.{settle-IsLeft}
use bitcoin_trading_strategy.IbExecutionDetails.Within.{
  IsConsistent, Event, run, new_database, run-IsConsistent, new_database-IsConsistent,
}

module _ (c : Callback) (symbol side : String) where
  -- `settle_matched` on the record that was found.
  abbrev checked : ExecutionRecord → Action Database IbExecutionDetailsResult
  checked r =
      lift (validate_contract symbol r)
      >> (lift (validate_execution_side side r)
          >> (raise_if (lt_dec (of_int r.quantity) c.cumulative) runtime_error >> settle c r))

  -- `settle_matched`, by what the search returned.
  abbrev searched : Result (Option ExecutionRecord) → Action Database IbExecutionDetailsResult
  searched o = lift o >>= λ found. lift (known_record found) >>= λ r. checked r

  settle_matched-searched :
      (d : Database)
      → settle_matched c symbol side d
        ≡ searched (find_record_by_broker_order_id c.order_id d.ledger) d
  unfolding settle_matched
  settle_matched-searched d = refl

  -- The record that a callback that returned was about passed the checks.
  abbrev HasPassed : ExecutionRecord → Type 0
  HasPassed r =
      (validate_contract symbol r ≡ ok tt)
      × (validate_execution_side side r ≡ ok tt)
      × (lt_dec (of_int r.quantity) c.cumulative ≡ false)

  checked_parts :
      (r : ExecutionRecord) (d d' : Database) (result : IbExecutionDetailsResult)
      → checked r d ≡ (ok result, d')
      → HasPassed r × (settle c r d ≡ (ok result, d'))
  checked_parts r d d' result h = elim (Result-cases (validate_contract symbol r)) [
    | inl (x, p) ↦ (let g = rw p at h in ground (arith, g))
    | inr (tt, p) ↦ elim (Result-cases (validate_execution_side side r)) [
      | inl (x, q) ↦ (let g = rw q at (rw p at h) in ground (arith, g))
      | inr (tt, q) ↦ elim (Bool-cases (lt_dec (of_int r.quantity) c.cumulative)) [
        | inl t ↦ (let g = rw t at (rw q at (rw p at h)) in ground (arith, g))
        | inr t ↦ ((p, q, t), rw t at (rw q at (rw p at h)))
      ]
    ]
  ]

  searched_parts :
      (d d' : Database) (result : IbExecutionDetailsResult) (o : Result (Option ExecutionRecord))
      → searched o d ≡ (ok result, d')
      → (r : ExecutionRecord) × (o ≡ ok (some r)) × (checked r d ≡ (ok result, d'))
  unfolding known_record
  searched_parts d d' result (err x) h = ground (arith, h)
  searched_parts d d' result (ok none) h = ground (arith, h)
  searched_parts d d' result (ok (some r)) h = (r, refl, h)

  -- The checks do not look at what a move of the ledger changes.
  moved-HasPassed :
      (r r' : ExecutionRecord)
      → HasPassed r
      → r' ≡ moved_record r'.status r.broker_order_id r'.reason r'.updated_at r
      → HasPassed r'
  unfolding validate_contract validate_execution_side
  moved-HasPassed r r' h m = subst HasPassed (sym m) h

-- The same callback, at another time.
abbrev later : ℕ → ℕ → Callback → Callback
later received now c = record c { received = received; now = now }

again_checked :
    (c : Callback) (symbol side : String) (r : ExecutionRecord) (d : Database)
    → HasPassed c symbol side r
    → execution_id_exists c.exec_id d ≡ true
    → checked c symbol side r d ≡ (ok (result_of c duplicate r), d)
unfolding settle
again_checked c symbol side r d (p, q, t) x = rw p (rw q (rw t (rw x refl)))

again_settle :
    (received now : ℕ) (c : Callback) (symbol side : String) (d d' : Database)
    (result : IbExecutionDetailsResult)
    → IsConsistent d
    → settle_matched c symbol side d ≡ (ok result, d')
    → settle_matched (later received now c) symbol side d'
      ≡ (ok (record result { outcome = duplicate }), d')
unfolding known_record
again_settle received now c symbol side d d' result consistent h =
    let (r, f, k) =
      searched_parts c symbol side d d' result _
        (sym (settle_matched-searched c symbol side d) ∙ h) in
    let (passed, s) = checked_parts c symbol side r d d' result k in
    let stored : find record_key r.event_id d.ledger.records ≡ some r =
      All-matched _ c.order_id d.ledger r
        (Table.find_each record_key d.ledger.records consistent.audited.keyed) f in
    let normal : IsNormal r = All-matched IsNormal c.order_id d.ledger r consistent.normal f in
    let (x, f', m, q) = settle-IsLeft c r d d' result consistent.audited.keyed normal stored f s in
    let again = later received now c in
    let r' = result.execution_record in
    settle_matched-searched again symbol side d'
    ∙ ap (λ o. searched again symbol side o d') f'
    ∙ again_checked again symbol side r' d' (moved-HasPassed c symbol side r r' passed m) x
    ∙ ap (λ y. (ok (record y { outcome = duplicate }), d')) (sym q)

-- The fields of a callback that got as far as the search.
record Fields (contract : Contract) (e : Execution) : Type 0 where
  order_id : ℕ
  exec_id : String
  cumulative : Finite
  time : Option String
  matched :
      (received now : ℕ) (d : Database)
      → handle_execution received now contract e d
        ≡ settle_matched
            (record {
              received = received;
              now = now;
              order_id = order_id;
              exec_id = exec_id;
              cumulative = cumulative;
              time = time;
            })
            contract.symbol
            e.side
            d

fields :
    (received now : ℕ) (contract : Contract) (e : Execution) (d d' : Database)
    (result : IbExecutionDetailsResult)
    → handle_execution received now contract e d ≡ (ok result, d')
    → Fields contract e
unfolding handle_execution
fields received now contract e d d' result h = elim (Result-cases (validate_order_id e.order_id)) [
  | inl (x, p) ↦ (let g = rw p at h in ground (arith, g))
  | inr (order_id, p) ↦ elim (Result-cases (validate_identifier e.exec_id)) [
    | inl (x, q) ↦ (let g = rw q at (rw p at h) in ground (arith, g))
    | inr (exec_id, q) ↦ elim (Result-cases (validate_positive_decimal e.shares)) [
      | inl (x, s) ↦ (let g = rw s at (rw q at (rw p at h)) in ground (arith, g))
      | inr (shares, s) ↦ elim (Result-cases (validate_positive_decimal e.cum_qty)) [
        | inl (x, t) ↦ (let g = rw t at (rw s at (rw q at (rw p at h))) in ground (arith, g))
        | inr (cumulative, t) ↦ elim (Bool-cases (lt_dec cumulative shares)) [
          | inl u ↦ (let g = rw u at (rw t at (rw s at (rw q at (rw p at h)))) in ground (arith, g))
          | inr u ↦ record {
            order_id = order_id;
            exec_id = exec_id;
            cumulative = cumulative;
            time = normalize_optional_execution_time e.time;
            matched = λ received now d. rw p (rw q (rw s (rw t (rw u refl))));
          }
        ]
      ]
    ]
  ]
]

-- If handle_execution returned on a database that a run of calls of the ledger and callbacks left,
-- the same callback delivered again, at any later time, returns the same result with the outcome
-- DUPLICATE and changes nothing.
pub handle_execution-again :
    (received now : ℕ) (contract : Contract) (e : Execution) (es : List Event) (d' : Database)
    (result : IbExecutionDetailsResult)
    → handle_execution received now contract e (run es new_database) ≡ (ok result, d')
    → (received' now' : ℕ)
    → handle_execution received' now' contract e d'
      ≡ (ok (record result { outcome = duplicate }), d')
handle_execution-again received now contract e es d' result h received' now' =
    let d = run es new_database in
    let f = fields received now contract e d d' result h in
    f.matched received' now' d'
    ∙ again_settle received' now' _ contract.symbol e.side d d' result
        (run-IsConsistent es new_database new_database-IsConsistent)
        (sym (f.matched received now d) ∙ h)
