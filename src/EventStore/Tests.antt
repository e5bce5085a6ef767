-- ===== src/EventStore/Tests.antt =====
-- The store of app/event_store.py on concrete calls.
use bitcoin_trading_strategy.Shared.{◌≡◌, refl, some, [], ◌∷◌}
use bitcoin_trading_strategy.Shared.Int.{pos}
use bitcoin_trading_strategy.Shared.Result.{ok}
use bitcoin_trading_strategy.Shared.Text.{validate_identifier, strip, is_space}
use bitcoin_trading_strategy.EventStore.{
  EventStore, accepted, out_of_sequence, validate_event_id, validate_seq, is_processed,
  check_event_with_seq, check_and_mark_event_with_seq, mark_event_with_seq,
}
use bitcoin_trading_strategy.EventStore.Order.{check-agrees}

abbrev store : EventStore
store = record { processed_events = "a" ∷ []; last_seq = some 5 }

check-agrees_example :
    check_event_with_seq "b" (pos 6) store
    ≡ ((check_and_mark_event_with_seq "b" (pos 6) store).0, store)
check-agrees_example = check-agrees "b" (pos 6) store

new_accepted :
    check_and_mark_event_with_seq "b" (pos 6) store
    ≡ (ok accepted, record { processed_events = "a" ∷ "b" ∷ []; last_seq = some 6 })
unfolding check_and_mark_event_with_seq mark_event_with_seq validate_event_id validate_seq
    validate_identifier strip is_space is_processed
new_accepted = refl

old_refused : check_and_mark_event_with_seq "b" (pos 5) store ≡ (ok out_of_sequence, store)
unfolding check_and_mark_event_with_seq mark_event_with_seq validate_event_id validate_seq
    validate_identifier strip is_space is_processed
old_refused = refl
