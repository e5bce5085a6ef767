-- ===== src/IbExecutionClient/Submission.antt =====
-- What one submission of app/ib_execution_client.py does when nothing stands in its way.
use bitcoin_trading_strategy.Shared.{
  ℕ, String, ◌≡◌, refl, inl, inr, true, none, some, [], ◌∷◌, ◌++◌, arith, eq_refl, Option-cases,
}
use bitcoin_trading_strategy.Shared.Int.{pos}
use bitcoin_trading_strategy.Shared.Result.{Result, ok, map_ok}
use bitcoin_trading_strategy.Shared.Table
use bitcoin_trading_strategy.Shared.Table.{find}
use bitcoin_trading_strategy.Shared.Text
use bitcoin_trading_strategy.Shared.Text.{validate_identifier}
use bitcoin_trading_strategy.Protocol.{TradeRequest}
use bitcoin_trading_strategy.DuplicateOrderGuard
use bitcoin_trading_strategy.DuplicateOrderGuard.{reservation_key}
use bitcoin_trading_strategy.ExecutionLedger.{
  reserved, submitted, ExecutionRecord, Ledger, record_key, transition, get, mark_submitted,
  moved_record, write_transition, allowed_transitions, validate_broker_order_id, normalize_reason,
}
use bitcoin_trading_strategy.IbOrderFactory.{
  Contract, Order, IbOrderPackage, IbOrderFactory, create,
}
use bitcoin_trading_strategy.IbExecutionClient.{
  IbSubmissionResult, BrokerCall, Client, matches_request, validate_order_id, send, deliver,
  submit_reserved,
}

module _ (place_order : ℕ → Contract → Order → Result (Unit {0})) (factory : IbOrderFactory)
    (request : TradeRequest) (k : String) (r : ExecutionRecord) where
  -- `mark_submitted` on a RESERVED record.
  mark_submitted-reserved :
      (now order_id : ℕ) (l : Ledger)
      → validate_identifier request.event_id ≡ ok k
      → find record_key k l.records ≡ some r
      → r.status ≡ reserved
      → mark_submitted now request.event_id (pos order_id) l ≡ (
        ok (moved_record submitted (some order_id) none now r),
        write_transition k r submitted (some order_id) none now l,
      )
  unfolding mark_submitted transition get validate_broker_order_id normalize_reason
      allowed_transitions
  mark_submitted-reserved now order_id l v f s = ground (
    arith,
    Text.validate_identifier_idem request.event_id k v,
    Table.find-update record_key (moved_record submitted (some order_id) none now) (λ x. refl) k k
        l.records,
    eq_refl k,
  )

  -- `send` on a RESERVED record, whatever the broker does.
  send-reserved :
      (now order_id : ℕ) (p : IbOrderPackage) (c : Client)
      → validate_identifier request.event_id ≡ ok k
      → find record_key k c.ledger.records ≡ some r
      → r.status ≡ reserved
      → send place_order factory now request order_id p c
        ≡ deliver place_order factory request order_id p
            (moved_record submitted (some order_id) none now r)
            (record c { ledger = write_transition k r submitted (some order_id) none now c.ledger })
  unfolding send
  send-reserved now order_id p c v f s =
      ground (arith, mark_submitted-reserved now order_id c.ledger v f s)

  submit_reserved-eq-send :
      (now order_id : ℕ) (month s : String) (p : IbOrderPackage) (c : Client)
      → validate_identifier request.event_id ≡ ok k
      → validate_identifier request.signal_id ≡ ok s
      → find record_key k c.ledger.records ≡ some r
      → r.status ≡ reserved
      → matches_request r request ≡ true
      → create factory request month ≡ ok p
      → (g : DuplicateOrderGuard.DuplicateOrderGuard) × (submit_reserved place_order factory now
            request month
            (pos order_id)
            c
          ≡ send place_order factory now request order_id p (record c { guard = g }))
  unfolding submit_reserved validate_order_id get DuplicateOrderGuard.contains
      DuplicateOrderGuard.reserve
  submit_reserved-eq-send now order_id month s p c v vs f st mt cr =
      elim (Option-cases (find reservation_key k c.guard.reservations)) [
        | inl e ↦ (
          record {
            reservations = c.guard.reservations ++ record { event_id = k; signal_id = s } ∷ [];
          },
          ground arith,
        )
        | inr (x, e) ↦ (c.guard, ground arith)
      ]

-- The call of the broker, and what the method returns if the broker does.
abbrev pub call_for : ExecutionRecord → ℕ → IbOrderPackage → BrokerCall
call_for r order_id p = record {
  event_id = r.event_id;
  order_id = order_id;
  contract = p.contract;
  order = p.order;
}

abbrev pub submitted_record : ℕ → ℕ → ExecutionRecord → ExecutionRecord
submitted_record now order_id r = moved_record submitted (some order_id) none now r

abbrev pub submission :
    TradeRequest → ℕ → IbOrderPackage → ExecutionRecord → Unit {0} → IbSubmissionResult
submission request order_id p r _ = record {
  event_id = request.event_id;
  broker_order_id = order_id;
  order_package = p;
  ledger_record = r;
}

module _ (place_order : ℕ → Contract → Order → Result (Unit {0})) (factory : IbOrderFactory)
    (request : TradeRequest) (k : String) (r : ExecutionRecord) (now order_id : ℕ)
    (p : IbOrderPackage) where
  abbrev pub Sends : Result IbSubmissionResult × Client → Client → Type 0
  Sends o c =
      (o.1.calls ≡ c.calls ++ call_for r order_id p ∷ [])
      × (find record_key k o.1.ledger.records ≡ some (submitted_record now order_id r))
      × (o.0
          ≡ map_ok (submission request order_id p (submitted_record now order_id r))
              (place_order order_id p.contract p.order))

  -- A RESERVED record made from the request, whose order can be built, is sent: `submit_reserved`
  -- calls the broker exactly once more, about that record and with the order identifier given; the
  -- record is then SUBMITTED with that identifier, also where the broker raises; and the method
  -- returns if the broker returns, or raises what the broker raises.
  pub submit_reserved-Sends :
      (month s : String) (c : Client)
      → validate_identifier request.event_id ≡ ok k
      → validate_identifier request.signal_id ≡ ok s
      → find record_key k c.ledger.records ≡ some r
      → r.status ≡ reserved
      → matches_request r request ≡ true
      → create factory request month ≡ ok p
      → Sends (submit_reserved place_order factory now request month (pos order_id) c) c
  submit_reserved-Sends month s c v vs f st mt cr =
      let (g, e) =
        submit_reserved-eq-send place_order factory request k r now order_id month s p c v vs f st
          mt cr in
      rw e (
        rw
          (send-reserved place_order factory request k r now order_id p (record c { guard = g }) v f
            st)
          (unfold deliver write_transition in
            ground (
              arith,
              Table.find-update record_key (submitted_record now order_id) (λ x. refl) k k
                  c.ledger.records,
              eq_refl k,
            )))
