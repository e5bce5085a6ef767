-- ===== src/IbExecutionDetails/Within.antt =====
-- What the table of executions of app/ib_execution_details_transport.py holds.
use bitcoin_trading_strategy.IbOrderStatus.Stored.{IsNormal, after-IsNormal}
use bitcoin_trading_strategy.ExecutionLedger.Audit.{empty-IsAudited}
use bitcoin_trading_strategy.ExecutionLedger.{empty}
use bitcoin_trading_strategy.Shared.Result.{runtime_error}
use bitcoin_trading_strategy.IbExecutionDetails.{
  settle_matched, validate_contract, validate_execution_side,
}
use bitcoin_trading_strategy.Shared.{
  ℕ, String, str_eq, ◌≡◌, refl, ◌⊎◌, inl, inr, false, Option, none, some, List, [], ◌∷◌, All,
  All-append, All-map, arith, Bool-cases, Option-cases,
}
use mathlib.Core.Path.{subst, sym}
use bitcoin_trading_strategy.Shared.Result.{Result, Result-cases, ok, err}
use bitcoin_trading_strategy.Shared.Decimal.{Finite, of_int, lt_dec, eq_dec}
use bitcoin_trading_strategy.Shared.Table
use bitcoin_trading_strategy.Shared.Table.{find, IsKeyed}
use bitcoin_trading_strategy.Shared.Action.{lift, raise_if, modify, ◌>>=◌, ◌>>◌}
use bitcoin_trading_strategy.Shared.Action.Keeps.{Keeps, keeps_rules}
use bitcoin_trading_strategy.ExecutionLedger.{
  ExecutionStatus, partially_filled, filled, cancelled, rejected, same_status, status_in,
  ExecutionRecord, Ledger, record_key, mark_partially_filled, mark_filled, moved_record, or_else,
}
use bitcoin_trading_strategy.IbOrderFactory.{Contract}
use bitcoin_trading_strategy.ExecutionLedger.Outcomes.{reserve_cases, transition_cases}
use bitcoin_trading_strategy.ExecutionLedger.Audit.{IsAudited}
use bitcoin_trading_strategy.ExecutionLedger.Runs.{
  Call, reserve_call, transition_call, after, after-IsAudited, find-reserved, find-moved,
}
use bitcoin_trading_strategy.IbOrderStatus.{find_record_by_broker_order_id, known_record}
use bitcoin_trading_strategy.IbOrderStatus.Stored.{All-matched}
use bitcoin_trading_strategy.IbExecutionDetails.{
  Database, Execution, ExecutionRow, Callback, exec_key, on_ledger, row_of, record_execution_id,
  advance, settle, settle_open, settle_filled, handle_execution, execution_id_exists,
}

-- The row's event has a record, and the cumulative quantity is at most that of the record.
abbrev pub IsCovered : Ledger → ExecutionRow → Type 0
IsCovered l row =
    (r : ExecutionRecord) × (find record_key row.event_id l.records ≡ some r)
    × (lt_dec (of_int r.quantity) row.cumulative_quantity ≡ false)

pub record IsConsistent (d : Database) : Type 0 where
  pub audited : IsAudited d.ledger
  pub normal : All IsNormal d.ledger.records
  pub distinct : IsKeyed exec_key d.ib_execution_details
  pub covered : All (IsCovered d.ledger) d.ib_execution_details

-- A move of the ledger keeps records and their quantities.
IsCovered-after :
    (c : Call) (l : Ledger) (row : ExecutionRow) → IsCovered l row → IsCovered (after c l) row
IsCovered-after (reserve_call now request) l row (r, f, q) = elim (reserve_cases now request l) [
  | inl (x, p) ↦ (r, rw (p, after) f, q)
  | inr m ↦ (r, rw (m.outcome, after) (find-reserved row.event_id _ r l f), q)
]
IsCovered-after (transition_call now e s b w) l row (r, f, q) =
    elim (transition_cases now e s b w l) [
      | inl (x, p) ↦ (r, rw (p, after) f, q)
      | inr m ↦ elim (Bool-cases (str_eq m.key row.event_id)) [
        | inl h ↦ (
          moved_record s (or_else m.broker m.current.broker_order_id) m.why now r,
          rw (m.outcome, after)
              (rw (find-moved row.event_id m.key m.current s _ m.why now l) (rw h (rw f refl))),
          q,
        )
        | inr h ↦ (
          r,
          rw (m.outcome, after)
              (rw (find-moved row.event_id m.key m.current s _ m.why now l) (rw h f)),
          q,
        )
      ]
    ]

pub ledger-IsConsistent :
    (c : Call) (d : Database)
    → IsConsistent d
    → IsConsistent (record d { ledger = after c d.ledger })
ledger-IsConsistent c d h = record {
  audited = after-IsAudited c d.ledger h.audited;
  normal = after-IsNormal c d.ledger h.normal;
  distinct = h.distinct;
  covered =
      All-map (IsCovered d.ledger) _ d.ib_execution_details
        (λ row g. IsCovered-after c d.ledger row g) h.covered;
}

-- A row about a covered quantity is added, or its identifier is taken.
record-IsConsistent :
    (row : ExecutionRow) (d : Database)
    → IsConsistent d
    → IsCovered d.ledger row
    → IsConsistent (record_execution_id row d)
unfolding record_execution_id
record-IsConsistent row d h c =
    elim (Option-cases (find exec_key row.exec_id d.ib_execution_details)) [
      | inl n ↦ rw n (record {
        audited = h.audited;
        normal = h.normal;
        distinct = Table.IsKeyed-append exec_key row d.ib_execution_details h.distinct n;
        covered =
            All-append (IsCovered d.ledger) d.ib_execution_details (row ∷ []) h.covered (c, tt);
      })
      | inr (x, f) ↦ rw f h
    ]

advance_cases :
    (now : ℕ) (q : Finite) (r : ExecutionRecord) (l : Ledger)
    → ((advance now q r l).1 ≡ l)
      ⊎ ((s : ExecutionStatus) × ((advance now q r l).1
            ≡ after (transition_call now r.event_id s none none) l))
unfolding advance mark_filled mark_partially_filled
advance_cases now q r l = elim (Bool-cases (eq_dec q (of_int r.quantity))) [
  | inl p ↦ inr (filled, rw p refl)
  | inr p ↦ elim (Bool-cases (same_status r.status partially_filled)) [
    | inl t ↦ inl (rw p (rw t refl))
    | inr t ↦ inr (partially_filled, rw p (rw t refl))
  ]
]

pub record-ledger :
    (row : ExecutionRow) (d : Database) → (record_execution_id row d).ledger ≡ d.ledger
unfolding record_execution_id
record-ledger row d = ground arith

module _ (c : Callback) (r : ExecutionRecord) where
  -- The invariant, and that the quantity of the callback is covered.
  abbrev Continued : Database → Type 0
  Continued d = IsConsistent d × IsCovered d.ledger (row_of c r)

  advance-Continued : Keeps Continued (on_ledger (advance c.now c.cumulative r))
  advance-Continued = record {
    at = λ d h. elim (advance_cases c.now c.cumulative r d.ledger) [
      | inl p ↦ rw p h
      | inr (s, p) ↦ rw p (
        ledger-IsConsistent (transition_call c.now r.event_id s none none) d h.0,
        IsCovered-after (transition_call c.now r.event_id s none none) d.ledger (row_of c r) h.1,
      )
    ];
  }

  record-Continued : Keeps Continued (modify (record_execution_id (row_of c r)))
  record-Continued = record {
    at = λ d h. (
      record-IsConsistent (row_of c r) d h.0 h.1,
      subst (λ l. IsCovered l (row_of c r)) (sym (record-ledger (row_of c r) d)) h.1,
    );
  }

  settle_filled-Continued : Keeps Continued (settle_filled c r)
  unfolding settle_filled
  settle_filled-Continued = search (keeps_rules, record-Continued)

  settle_open-Continued : Keeps Continued (settle_open c r)
  unfolding settle_open
  settle_open-Continued = search (keeps_rules, record-Continued, advance-Continued)

  settle-Continued : Keeps Continued (settle c r)
  unfolding settle
  settle-Continued = record {
    at = λ d h. elim (Bool-cases (execution_id_exists c.exec_id d)) [
      | inl p ↦ rw p h
      | inr p ↦ elim (Bool-cases (status_in r.status (cancelled ∷ rejected ∷ []))) [
        | inl q ↦ rw p (rw q h)
        | inr q ↦ elim (Bool-cases (same_status r.status filled)) [
          | inl t ↦ rw p (rw q (rw t (settle_filled-Continued.at d h)))
          | inr t ↦ rw p (rw q (rw t (settle_open-Continued.at d h)))
        ]
      ]
    ];
  }

-- The checks of the record, and what follows them.
checked-IsConsistent :
    (c : Callback) (symbol side : String) (r : ExecutionRecord) (d : Database)
    → IsConsistent d
    → find record_key r.event_id d.ledger.records ≡ some r
    → IsConsistent
        ((lift (known_record (some r)) >>= λ r.
            lift (validate_contract symbol r)
            >> (lift (validate_execution_side side r)
                >> (raise_if (lt_dec (of_int r.quantity) c.cumulative) runtime_error
                    >> settle c r)))
          d).1
unfolding known_record
checked-IsConsistent c symbol side r d h f = elim (Result-cases (validate_contract symbol r)) [
  | inl (x, p) ↦ rw p h
  | inr (u, p) ↦ elim (Result-cases (validate_execution_side side r)) [
    | inl (x, q) ↦ rw p (rw q h)
    | inr (v, q) ↦ elim (Bool-cases (lt_dec (of_int r.quantity) c.cumulative)) [
      | inl t ↦ rw p (rw q (rw t h))
      | inr t ↦ rw p (rw q (rw t ((settle-Continued c r).at d (h, (r, f, t))).0))
    ]
  ]
]

-- How the search by order identifier goes on.
found-IsConsistent :
    (c : Callback) (symbol side : String) (d : Database) (o : Result (Option ExecutionRecord))
    → IsConsistent d
    → find_record_by_broker_order_id c.order_id d.ledger ≡ o
    → IsConsistent
        ((lift o >>= λ found. lift (known_record found) >>= λ r.
            lift (validate_contract symbol r)
            >> (lift (validate_execution_side side r)
                >> (raise_if (lt_dec (of_int r.quantity) c.cumulative) runtime_error
                    >> settle c r)))
          d).1
unfolding known_record
found-IsConsistent c symbol side d (err x) h p = h
found-IsConsistent c symbol side d (ok none) h p = h
found-IsConsistent c symbol side d (ok (some r)) h p = checked-IsConsistent c symbol side r d h (
    All-matched _ c.order_id d.ledger r
      (Table.find_each record_key d.ledger.records h.audited.keyed) p)

matched-IsConsistent :
    (c : Callback) (symbol side : String) → Keeps IsConsistent (settle_matched c symbol side)
unfolding settle_matched
matched-IsConsistent c symbol side = record {
  at = λ d h. found-IsConsistent c symbol side d _ h refl;
}

handle_execution-IsConsistent :
    (received now : ℕ) (contract : Contract) (e : Execution)
    → Keeps IsConsistent (handle_execution received now contract e)
unfolding handle_execution
handle_execution-IsConsistent received now contract e =
    search (keeps_rules, matched-IsConsistent) depth 12

-- What happens to the database: a call of the ledger, or a callback.
pub data Event : Type 0 where
  ledger_call : Call → Event
  execution : ℕ → ℕ → Contract → Execution → Event

abbrev pub step : Event → Database → Database
step (ledger_call c) d = record d { ledger = after c d.ledger }
step (execution received now contract e) d = (handle_execution received now contract e d).1

unfoldable pub run : List Event → Database → Database
run [] d = d
run (e ∷ es) d = run es (step e d)

step-IsConsistent : (e : Event) (d : Database) → IsConsistent d → IsConsistent (step e d)
step-IsConsistent (ledger_call c) d h = ledger-IsConsistent c d h
step-IsConsistent (execution received now contract e) d h =
    (handle_execution-IsConsistent received now contract e).at d h

pub run-IsConsistent : (es : List Event) (d : Database) → IsConsistent d → IsConsistent (run es d)
unfolding run
run-IsConsistent [] d h = h
run-IsConsistent (e ∷ es) d h = run-IsConsistent es (step e d) (step-IsConsistent e d h)

-- A new file.
abbrev pub new_database : Database
new_database = record { ledger = empty; ib_execution_details = [] }

pub new_database-IsConsistent : IsConsistent new_database
new_database-IsConsistent = record {
  audited = empty-IsAudited;
  normal = tt;
  distinct = tt;
  covered = tt;
}

-- After any interleaving of calls of the ledger and of handle_execution on a new database, returning
-- or raising, no two rows of the table of executions have one exec_id, and the event of each row has
-- a record whose quantity the row's cumulative quantity does not exceed.
pub executions_within :
    (es : List Event)
    → IsKeyed exec_key (run es new_database).ib_execution_details
      × All (IsCovered (run es new_database).ledger) (run es new_database).ib_execution_details
executions_within es =
    let h = run-IsConsistent es new_database new_database-IsConsistent in (h.distinct, h.covered)
