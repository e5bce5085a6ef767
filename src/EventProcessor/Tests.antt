-- ===== src/EventProcessor/Tests.antt =====
-- A feed through app/event_processor.py on concrete frames.
use bitcoin_trading_strategy.Shared.{String, ◌≡◌, refl, List, [], ◌∷◌}
use bitcoin_trading_strategy.Shared.Int.{ℤ, pos}
use bitcoin_trading_strategy.Shared.Text.{validate_identifier, strip, is_space}
use bitcoin_trading_strategy.Protocol.{IncomingLifecycleEvent, staging}
use bitcoin_trading_strategy.EventStore.{
  empty, validate_event_id, validate_seq, is_processed, check_and_mark_event_with_seq,
  mark_event_with_seq, mark_seq_processed,
}
use bitcoin_trading_strategy.EventProcessor.{process_event, process_heartbeat}
use bitcoin_trading_strategy.EventProcessor.Feed.{
  Frame, event, heartbeat, accepted_events, IsOrdered, accepted_events-IsOrdered,
}

abbrev event_of : String → ℤ → IncomingLifecycleEvent
event_of event_id seq = record {
  message_type = "fund.entry";
  seq = seq;
  event_id = event_id;
  signal_id = "s1";
  timestamp = 0;
  environment = staging;
  payload = [];
}

-- A duplicate, and an event that a heartbeat has overtaken.
abbrev frames : List Frame
frames =
    event (event_of "a" (pos 1))
    ∷ event (event_of "a" (pos 2))
    ∷ heartbeat (pos 5)
    ∷ event (event_of "b" (pos 4))
    ∷ event (event_of "c" (pos 6))
    ∷ []

two_accepted : accepted_events frames empty ≡ event_of "a" (pos 1) ∷ event_of "c" (pos 6) ∷ []
unfolding accepted_events process_event process_heartbeat check_and_mark_event_with_seq
    mark_event_with_seq mark_seq_processed validate_event_id validate_seq validate_identifier strip
    is_space is_processed
two_accepted = refl

accepted_events-IsOrdered_example : IsOrdered (accepted_events frames empty)
accepted_events-IsOrdered_example = accepted_events-IsOrdered frames
