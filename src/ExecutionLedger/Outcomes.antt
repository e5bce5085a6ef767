-- ===== src/ExecutionLedger/Outcomes.antt =====
-- What a call of `reserve` or `transition` of app/execution_ledger.py does, on every branch: it
-- raises and writes nothing, or it writes one record and one line of the audit trail.
use bitcoin_trading_strategy.Shared.{
  ℕ, String, ◌≡◌, refl, ◌⊎◌, inl, inr, true, Option, none, some, arith, eq_refl, Bool-cases,
  Option-cases,
}
use bitcoin_trading_strategy.Shared.Int.{ℤ, pos, leb_ℤ}
use bitcoin_trading_strategy.Shared.Result.{
  Error, Result-cases, ok, err, value_error, key_error, map_ok,
}
use bitcoin_trading_strategy.Shared.Table
use bitcoin_trading_strategy.Shared.Table.{find, update}
use bitcoin_trading_strategy.Shared.Text.{validate_identifier, upper}
use bitcoin_trading_strategy.Shared.Text
use bitcoin_trading_strategy.Protocol.{TradeRequest}
use bitcoin_trading_strategy.ExecutionLedger.{
  ExecutionStatus, status_in, allowed_transitions, ExecutionRecord, Ledger, record_key,
  validate_broker_order_id, normalize_reason, get, new_record, reserved_ledger, reserve, or_else,
  moved_record, write_transition, transition,
}

-- A call of `reserve` that found the event new.
pub record Reserves (now : ℕ) (request : TradeRequest) (l : Ledger) : Type 0 where
  pub key : String
  pub signal : String
  pub symbol : String
  pub key_valid : validate_identifier request.event_id ≡ ok key
  pub fresh : find record_key key l.records ≡ none
  pub outcome : reserve now request l ≡ (
    ok (new_record key signal symbol request now),
    reserved_ledger (new_record key signal symbol request now) l,
  )

-- A call of `transition` that the table of transitions allows.
pub record Moves (now : ℕ) (event_id : String) (new_status : ExecutionStatus)
    (broker_order_id : Option ℤ) (reason : Option String) (l : Ledger) : Type 0 where
  pub key : String
  pub current : ExecutionRecord
  pub broker : Option ℕ
  pub why : Option String
  pub key_valid : validate_identifier event_id ≡ ok key
  pub broker_valid : validate_broker_order_id broker_order_id ≡ ok broker
  pub found : find record_key key l.records ≡ some current
  pub allowed : status_in new_status (allowed_transitions current.status) ≡ true
  pub outcome : transition now event_id new_status broker_order_id reason l ≡ (
    ok (moved_record new_status (or_else broker current.broker_order_id) why now current),
    write_transition key current new_status (or_else broker current.broker_order_id) why now l,
  )

pub reserve_cases :
    (now : ℕ) (request : TradeRequest) (l : Ledger)
    → ((x : Error) × (reserve now request l ≡ (err x, l))) ⊎ Reserves now request l
reserve_cases now request l = elim (Result-cases (validate_identifier request.event_id)) [
  | inl (x, p) ↦ inl (x, unfold reserve in rw p)
  | inr (k, p) ↦ elim (Result-cases (validate_identifier request.signal_id)) [
    | inl (x, q) ↦ inl (x, unfold reserve in rw (p, q))
    | inr (s, q) ↦ elim (Result-cases (map_ok upper (validate_identifier request.symbol))) [
      | inl (x, t) ↦ inl (x, unfold reserve in rw (p, q) (rw t))
      | inr (y, t) ↦ elim (Bool-cases (leb_ℤ request.quantity (pos 0))) [
        | inl z ↦ inl (value_error, unfold reserve in rw (p, q) (rw t (rw z)))
        | inr z ↦ elim (Option-cases (find record_key k l.records)) [
          | inl f ↦ inr (record {
            key = k;
            signal = s;
            symbol = y;
            key_valid = p;
            fresh = f;
            outcome =
                unfold reserve get reserved_ledger in
                ground (
                  arith,
                  Text.validate_identifier_idem request.event_id k p,
                  Table.find_new record_key (new_record k s y request now) l.records f,
                );
          })
          | inr (r, f) ↦ inl (value_error, unfold reserve in ground arith)
        ]
      ]
    ]
  ]
]

pub transition_cases :
    (now : ℕ) (event_id : String) (new_status : ExecutionStatus) (broker_order_id : Option ℤ)
    (reason : Option String) (l : Ledger)
    → ((x : Error) × (transition now event_id new_status broker_order_id reason l ≡ (err x, l)))
      ⊎ Moves now event_id new_status broker_order_id reason l
transition_cases now event_id new_status broker_order_id reason l =
    elim (Result-cases (validate_identifier event_id)) [
      | inl (x, p) ↦ inl (x, unfold transition in rw p)
      | inr (k, p) ↦ elim (Result-cases (validate_broker_order_id broker_order_id)) [
        | inl (x, q) ↦ inl (x, unfold transition in rw (p, q))
        | inr (b, q) ↦ elim (Result-cases (normalize_reason reason)) [
          | inl (x, t) ↦ inl (x, unfold transition in rw (p, q, t))
          | inr (w, t) ↦ elim (Option-cases (find record_key k l.records)) [
            | inl f ↦ inl (
              key_error,
              unfold transition get in ground (arith, Text.validate_identifier_idem event_id k p),
            )
            | inr (r, f) ↦ elim (Bool-cases (status_in new_status (allowed_transitions r.status))) [
              | inl a ↦ inr (record {
                key = k;
                current = r;
                broker = b;
                why = w;
                key_valid = p;
                broker_valid = q;
                found = f;
                allowed = a;
                outcome =
                    unfold transition get in
                    ground (
                      arith,
                      Text.validate_identifier_idem event_id k p,
                      Table.find-update record_key
                          (moved_record new_status (or_else b r.broker_order_id) w now) (λ x. refl)
                          k k l.records,
                      eq_refl k,
                    );
              })
              | inr a ↦ inl (
                value_error,
                unfold transition get in ground (arith, Text.validate_identifier_idem event_id k p),
              )
            ]
          ]
        ]
      ]
    ]
