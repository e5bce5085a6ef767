-- ===== src/EventProcessor.antt =====
-- app/event_processor.py and app/heartbeat_processor.py: the two clients of the event store.
use bitcoin_trading_strategy.Shared.{Bool, true, false}
use bitcoin_trading_strategy.Shared.Int.{ℤ}
use bitcoin_trading_strategy.Shared.Action.{Action, pure, ◌>>=◌}
use bitcoin_trading_strategy.Protocol.{IncomingLifecycleEvent}
use bitcoin_trading_strategy.EventStore
use bitcoin_trading_strategy.EventStore.{
  EventStore, EventProcessingResult, check_and_mark_event_with_seq, mark_seq_processed,
}
mod Tests
pub mod Feed

pub data EventProcessStatus : Type 0 where
  accepted duplicate_event out_of_sequence : EventProcessStatus

pub record EventProcessResult : Type 0 where
  pub status : EventProcessStatus

-- `EventProcessResult.accepted`
abbrev pub is_accepted : EventProcessResult → Bool
is_accepted r = elim r.status [
  | accepted ↦ true
  | duplicate_event ↦ false
  | out_of_sequence ↦ false
]

status_for : EventProcessingResult → EventProcessStatus
status_for EventStore.accepted = accepted
status_for EventStore.duplicate_event = duplicate_event
status_for EventStore.out_of_sequence = out_of_sequence

-- `EventProcessor.process`
unfoldable pub process_event : IncomingLifecycleEvent → Action EventStore EventProcessResult
unfolding status_for
process_event event = do
  store_result ← check_and_mark_event_with_seq event.event_id event.seq
  pure (record { status = status_for store_result })

-- `HeartbeatProcessor.process`, on the sequence number of the frame.
unfoldable pub process_heartbeat : ℤ → Action EventStore (Unit {0})
process_heartbeat seq = mark_seq_processed seq
