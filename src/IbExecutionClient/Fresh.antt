-- ===== src/IbExecutionClient/Fresh.antt =====
-- `submit` of app/ib_execution_client.py on an event that is new to the guard and to the ledger.
use bitcoin_trading_strategy.Shared.{ℕ, String, ◌≡◌, refl, true, false, none, [], ◌∷◌, ◌++◌, arith}
use bitcoin_trading_strategy.Shared.Int.{pos, leb_ℤ}
use bitcoin_trading_strategy.Shared.Result.{Result, ok, err, value_error, map_ok}
use bitcoin_trading_strategy.Shared.Table
use bitcoin_trading_strategy.Shared.Table.{find}
use bitcoin_trading_strategy.Shared.Text
use bitcoin_trading_strategy.Shared.Text.{validate_identifier, upper}
use bitcoin_trading_strategy.Protocol.{TradeRequest}
use bitcoin_trading_strategy.DuplicateOrderGuard
use bitcoin_trading_strategy.DuplicateOrderGuard.{reservation_key}
use bitcoin_trading_strategy.ExecutionLedger
use bitcoin_trading_strategy.ExecutionLedger.{
  record_key, new_record, insert_record, reserved_ledger, get, contains,
}
use bitcoin_trading_strategy.IbOrderFactory.{
  Contract, Order, IbOrderPackage, IbOrderFactory, create,
}
use bitcoin_trading_strategy.IbExecutionClient.{
  Client, matches_request, validate_order_id, reserve_execution, submit_reserved, submit,
}
use bitcoin_trading_strategy.IbExecutionClient.Submission.{Sends, submit_reserved-Sends}

module _ (request : TradeRequest) (k s y : String) where
  -- The client once the request is reserved.
  abbrev pub reserved_client : ℕ → Client → Client
  reserved_client now c = record c {
    guard = record {
      reservations = c.guard.reservations ++ record { event_id = k; signal_id = s } ∷ [];
    };
    ledger = reserved_ledger (new_record k s y request now) c.ledger;
  }

  module _ (now : ℕ) (c : Client) (event_valid : validate_identifier request.event_id ≡ ok k)
      (signal_valid : validate_identifier request.signal_id ≡ ok s)
      (symbol_valid : map_ok upper (validate_identifier request.symbol) ≡ ok y)
      (positive : leb_ℤ request.quantity (pos 0) ≡ false)
      (new_event : find record_key k c.ledger.records ≡ none)
      (unguarded : find reservation_key k c.guard.reservations ≡ none) where
    reserve_execution-fresh :
        reserve_execution now request c ≡ (ok (new_record k s y request now), reserved_client now c)
    unfolding reserve_execution contains get DuplicateOrderGuard.reserve ExecutionLedger.reserve
        insert_record reserved_ledger
    reserve_execution-fresh = ground (
      arith,
      event_valid,
      signal_valid,
      symbol_valid,
      positive,
      new_event,
      unguarded,
      Text.validate_identifier_idem request.event_id k event_valid,
      Table.find_new record_key (new_record k s y request now) c.ledger.records new_event,
    )

    module _ (place_order : ℕ → Contract → Order → Result (Unit {0})) (factory : IbOrderFactory)
        (later order_id : ℕ) (month : String) where
      submit-eq-submit_reserved :
          submit place_order factory now later request month (pos order_id) c
          ≡ submit_reserved place_order factory later request month
              (pos order_id)
              (reserved_client now c)
      unfolding submit validate_order_id
      submit-eq-submit_reserved = ground (arith, reserve_execution-fresh)

      -- A request that is new to the guard and to the ledger, with a positive quantity, whose
      -- reservation matches it and whose order can be built, is sent: `submit` calls the broker
      -- exactly once more, about the new record; the record is then SUBMITTED with the order
      -- identifier given, also where the broker raises; and the method returns if the broker
      -- returns, or raises what the broker raises.
      pub submit-Sends :
          (p : IbOrderPackage)
          → matches_request (new_record k s y request now) request ≡ true
          → create factory request month ≡ ok p
          → Sends place_order factory request k
              (new_record k s y request now)
              later
              order_id
              p
              (submit place_order factory now later request month (pos order_id) c)
              c
      submit-Sends p mt cr = rw submit-eq-submit_reserved (
          submit_reserved-Sends place_order factory request k (new_record k s y request now) later
            order_id p month s (reserved_client now c) event_valid signal_valid
            (unfold reserved_ledger in
              Table.find_new record_key (new_record k s y request now) c.ledger.records new_event)
            refl mt cr)

      -- Where the reservation that `submit` makes of a new request does not match the request, as
      -- where the request's identifiers carry spaces around them, `submit` raises `ValueError`: the
      -- guard holds the event, its record is RESERVED, and the broker is not called.
      pub submit_unmatched :
          matches_request (new_record k s y request now) request ≡ false
          → submit place_order factory now later request month (pos order_id) c
            ≡ (err value_error, reserved_client now c)
      unfolding submit_reserved get reserved_ledger validate_order_id
      submit_unmatched mt = rw submit-eq-submit_reserved (
          ground (
            arith,
            event_valid,
            mt,
            Table.find_new record_key (new_record k s y request now) c.ledger.records new_event,
          ))
