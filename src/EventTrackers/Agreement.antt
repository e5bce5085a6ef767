-- ===== src/EventTrackers/Agreement.antt =====
-- The trackers in memory agree with app/event_store.py.
use bitcoin_trading_strategy.Shared.{String, ◌≡◌, ap, refl, Bool, List, [], ◌∷◌, arith}
use bitcoin_trading_strategy.Shared.Int.{ℤ}
use bitcoin_trading_strategy.Shared.Result.{Result}
use bitcoin_trading_strategy.EventStore.{
  EventStore, empty, check_and_mark_event, check_and_mark_seq, mark_event_processed,
  mark_seq_processed, has_processed_event,
}
use bitcoin_trading_strategy.EventTrackers.{
  IdempotencyManager, SequenceManager, new_idempotency_manager, new_sequence_manager,
  check_and_mark_id, mark_id_processed, has_processed, is_newer, mark_newer_processed,
  check_and_mark_newer,
}

-- A call that both sides have.
pub data Call : Type 0 where
  has_event mark_event check_event : String → Call
  mark_seq check_seq : ℤ → Call

pub data Answer : Type 0 where
  verdict : Result Bool → Answer
  done : Result (Unit {0}) → Answer

-- The two trackers side by side.
pub record Trackers : Type 0 where
  pub events : IdempotencyManager
  pub sequence : SequenceManager

abbrev pub new_trackers : Trackers
new_trackers = record { events = new_idempotency_manager; sequence = new_sequence_manager }

unfoldable pub store_call : Call → EventStore → Answer × EventStore
store_call (has_event e) s = (let (r, t) = has_processed_event e s in (verdict r, t))
store_call (mark_event e) s = (let (r, t) = mark_event_processed e s in (done r, t))
store_call (check_event e) s = (let (r, t) = check_and_mark_event e s in (verdict r, t))
store_call (mark_seq n) s = (let (r, t) = mark_seq_processed n s in (done r, t))
store_call (check_seq n) s = (let (r, t) = check_and_mark_seq n s in (verdict r, t))

unfoldable pub tracker_call : Call → Trackers → Answer × Trackers
tracker_call (has_event e) m =
    (let (r, t) = has_processed e m.events in (verdict r, record m { events = t }))
tracker_call (mark_event e) m =
    (let (r, t) = mark_id_processed e m.events in (done r, record m { events = t }))
tracker_call (check_event e) m =
    (let (r, t) = check_and_mark_id e m.events in (verdict r, record m { events = t }))
tracker_call (mark_seq n) m =
    (let (r, t) = mark_newer_processed n m.sequence in (done r, record m { sequence = t }))
tracker_call (check_seq n) m =
    (let (r, t) = check_and_mark_newer n m.sequence in (verdict r, record m { sequence = t }))

-- The answers to a sequence of calls.
unfoldable pub store_answers : List Call → EventStore → List Answer
store_answers [] s = []
store_answers (c ∷ cs) s = (store_call c s).0 ∷ store_answers cs (store_call c s).1

unfoldable pub tracker_answers : List Call → Trackers → List Answer
tracker_answers [] m = []
tracker_answers (c ∷ cs) m = (tracker_call c m).0 ∷ tracker_answers cs (tracker_call c m).1

-- The store that the trackers stand for.
abbrev stored : Trackers → EventStore
stored m = record {
  processed_events = m.events.processed_event_ids;
  last_seq = m.sequence.last_seq;
}

call-agrees :
    (c : Call) (m : Trackers)
    → ((store_call c (stored m)).0 ≡ (tracker_call c m).0)
      × ((store_call c (stored m)).1 ≡ stored (tracker_call c m).1)
unfolding store_call tracker_call has_processed mark_id_processed check_and_mark_id is_newer
    mark_newer_processed check_and_mark_newer has_processed_event mark_event_processed
    check_and_mark_event mark_seq_processed check_and_mark_seq
call-agrees (has_event e) m = (ground arith, ground arith)
call-agrees (mark_event e) m = (ground arith, ground arith)
call-agrees (check_event e) m = (ground arith, ground arith)
call-agrees (mark_seq n) m = (ground arith, ground arith)
call-agrees (check_seq n) m = (ground arith, ground arith)

answers-agree : (cs : List Call) (m : Trackers) → store_answers cs (stored m) ≡ tracker_answers cs m
unfolding store_answers tracker_answers
answers-agree [] m = refl
answers-agree (c ∷ cs) m =
    let (a, s) = call-agrees c m in
    rw a (rw s (ap (λ rest. (tracker_call c m).0 ∷ rest) (answers-agree cs (tracker_call c m).1)))

-- Any sequence of the calls that a new event store and a new pair of in-memory trackers have in
-- common, of which any may raise, is answered alike by both, call by call.
pub new_answers-agree : (cs : List Call) → store_answers cs empty ≡ tracker_answers cs new_trackers
new_answers-agree cs = answers-agree cs new_trackers
