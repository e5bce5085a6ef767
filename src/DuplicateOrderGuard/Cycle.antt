-- ===== src/DuplicateOrderGuard/Cycle.antt =====
-- One event in app/duplicate_order_guard.py: reserved, held, released.
use bitcoin_trading_strategy.Shared.{String, ◌≡◌, true, none, some, arith, eq_refl}
use bitcoin_trading_strategy.Shared.Result.{ok}
use bitcoin_trading_strategy.Shared.Table
use bitcoin_trading_strategy.Shared.Table.{find, delete}
use bitcoin_trading_strategy.Shared.Text.{validate_identifier}
use bitcoin_trading_strategy.Protocol.{TradeRequest}
use bitcoin_trading_strategy.DuplicateOrderGuard.{
  DuplicateOrderGuard, reserved, duplicate, reservation_key, reserve, settle_reservation, release,
  release_known,
}

module _ (first second : TradeRequest) (k s t : String) (g : DuplicateOrderGuard)
    (first_valid : validate_identifier first.event_id ≡ ok k)
    (second_valid : validate_identifier second.event_id ≡ ok k)
    (first_signal : validate_identifier first.signal_id ≡ ok s)
    (second_signal : validate_identifier second.signal_id ≡ ok t)
    (fresh : find reservation_key k g.reservations ≡ none) where
  -- The guard once it holds the event.
  abbrev pub held : DuplicateOrderGuard
  held = (reserve first g).1

  held_found :
      find reservation_key k held.reservations ≡ some (record { event_id = k; signal_id = s })
  unfolding reserve settle_reservation
  held_found = ground (
    arith,
    first_valid,
    first_signal,
    fresh,
    Table.find_new reservation_key (record { event_id = k; signal_id = s }) g.reservations fresh,
  )

  -- An event that the guard does not hold, under valid identifiers, is reserved by the first request
  -- and then held: every other request with the same event, also one of another signal, is told
  -- that it is a duplicate and changes nothing, until release, which answers that it removed the
  -- event; then the event is not held, and the next request reserves it again.
  pub reserve_once :
      ((reserve first g).0 ≡ ok (record { status = reserved; event_id = k; signal_id = s }))
      × (reserve second held
          ≡ (ok (record { status = duplicate; event_id = k; signal_id = t }), held))
      × ((release first.event_id held).0 ≡ ok true)
      × ((reserve second (release first.event_id held).1).0
          ≡ ok (record { status = reserved; event_id = k; signal_id = t }))
  unfolding reserve settle_reservation release release_known
  reserve_once = (
    ground (arith, first_valid, first_signal, fresh),
    ground (arith, second_valid, second_signal, held_found),
    ground (arith, first_valid, held_found),
    ground (
      arith,
      first_valid,
      second_valid,
      second_signal,
      held_found,
      eq_refl k,
      Table.find-delete reservation_key k k held.reservations,
    ),
  )
