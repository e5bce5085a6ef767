-- ===== src/EventProcessor/Feed.antt =====
-- The feed of events and heartbeats through app/event_processor.py and app/heartbeat_processor.py.
use bitcoin_trading_strategy.Shared.{
  ℕ, String, str_eq, ◌≡◌, refl, ap, sym, inl, inr, Bool, true, false, some, List, [], ◌∷◌, arith,
  All, All-map, if◌then◌else◌,
}
use bitcoin_trading_strategy.Shared.Int.{ℤ, pos, ltb_ℤ}
use bitcoin_trading_strategy.Shared.Result.{Result, Result-cases, ok, err}
use bitcoin_trading_strategy.Protocol.{IncomingLifecycleEvent}
use bitcoin_trading_strategy.EventStore.{
  EventStore, empty, is_processed, is_stale, validate_seq, mark_seq_processed,
  check_and_mark_event_with_seq,
}
use bitcoin_trading_strategy.EventStore
use bitcoin_trading_strategy.EventStore.Order.{is_above, Accepts, mark_cases, is_processed-append}
use bitcoin_trading_strategy.Shared.{◌++◌}
use bitcoin_trading_strategy.EventProcessor.{
  accepted, out_of_sequence, EventProcessResult, is_accepted, process_event, process_heartbeat,
  duplicate_event, status_for,
}

pub data Frame : Type 0 where
  event : IncomingLifecycleEvent → Frame
  heartbeat : ℤ → Frame

unfoldable pub after : Frame → EventStore → EventStore
after (event e) s = (process_event e s).1
after (heartbeat seq) s = (process_heartbeat seq s).1

abbrev pub accepts : Result EventProcessResult → Bool
accepts (ok r) = is_accepted r
accepts (err _) = false

-- The events of a feed that were accepted, in order. A call that raises accepts nothing.
unfoldable pub accepted_events : List Frame → EventStore → List IncomingLifecycleEvent
unfolding after
accepted_events [] s = []
accepted_events (heartbeat seq ∷ frames) s = accepted_events frames (after (heartbeat seq) s)
accepted_events (event e ∷ frames) s =
    let rest = accepted_events frames (after (event e) s) in
    if accepts (process_event e s).0 then e ∷ rest else rest

-- An event that the store has not passed.
abbrev IsAhead : EventStore → IncomingLifecycleEvent → Type 0
IsAhead s e =
    (is_processed e.event_id s.processed_events ≡ false) × (is_above s.last_seq e.seq ≡ true)

-- A later event: another identifier and a higher number.
abbrev pub Follows : IncomingLifecycleEvent → IncomingLifecycleEvent → Type 0
Follows e f = (str_eq e.event_id f.event_id ≡ false) × (ltb_ℤ e.seq f.seq ≡ true)

abbrev pub IsOrdered : List IncomingLifecycleEvent → Type 0
IsOrdered [] = Unit
IsOrdered (e ∷ es) = All (Follows e) es × IsOrdered es

process_event-refused :
    (e : IncomingLifecycleEvent) (s : EventStore) (a : Result EventStore.EventProcessingResult)
    → (a ≡ ok EventStore.accepted → ⊥)
    → check_and_mark_event_with_seq e.event_id e.seq s ≡ (a, s)
    → (r : Result EventProcessResult) × (process_event e s ≡ (r, s)) × (accepts r ≡ false)
unfolding process_event status_for
process_event-refused e s (ok EventStore.accepted) n h = absurd (n refl)
process_event-refused e s (ok EventStore.duplicate_event) n h =
    (ok (record { status = duplicate_event }), ground (arith, h), refl)
process_event-refused e s (ok EventStore.out_of_sequence) n h =
    (ok (record { status = out_of_sequence }), ground (arith, h), refl)
process_event-refused e s (err x) n h = (err x, ground (arith, h), refl)

abbrev store_with : EventStore → String → ℕ → EventStore
store_with s event_id n = record {
  processed_events = s.processed_events ++ event_id ∷ [];
  last_seq = some n;
}

process_event-accepted :
    (e : IncomingLifecycleEvent) (s : EventStore) (m : Accepts e.event_id e.seq s)
    → process_event e s ≡ (ok (record { status = accepted }), store_with s e.event_id m.number)
unfolding process_event status_for
process_event-accepted e s m = ground (arith, m.outcome)

heartbeat-IsAhead :
    (seq : ℤ) (s : EventStore) (e : IncomingLifecycleEvent)
    → IsAhead (after (heartbeat seq) s) e
    → IsAhead s e
unfolding after process_heartbeat mark_seq_processed
heartbeat-IsAhead seq s e h = elim (Result-cases (validate_seq seq)) [
  | inl (x, p) ↦ (ground (arith, h, p), ground (arith, h, p))
  | inr (n, p) ↦ (ground (arith, h, p), ground (arith, h, p))
]

accepted-IsAhead :
    (k : String) (n : ℕ) (s : EventStore) (e : IncomingLifecycleEvent)
    → is_above s.last_seq (pos n) ≡ true
    → IsAhead (store_with s k n) e
    → IsAhead s e
accepted-IsAhead k n s e a h =
    (ground (arith, h.0, is_processed-append e.event_id k s.processed_events), ground (arith, h.1))

accepted-Follows :
    (k : IncomingLifecycleEvent) (n : ℕ) (s : EventStore) (e : IncomingLifecycleEvent)
    → k.seq ≡ pos n
    → IsAhead (store_with s k.event_id n) e
    → Follows k e
accepted-Follows k n s e p h =
    (ground (arith, h.0, is_processed-append e.event_id k.event_id s.processed_events), rw p h.1)

accepted_events-event :
    (e : IncomingLifecycleEvent) (frames : List Frame) (s t : EventStore)
    (r : Result EventProcessResult)
    → process_event e s ≡ (r, t)
    → accepted_events (event e ∷ frames) s
      ≡ (if accepts r then e ∷ accepted_events frames t else accepted_events frames t)
unfolding accepted_events after
accepted_events-event e frames s t r h =
    ap (λ o. if accepts o.0 then e ∷ accepted_events frames o.1 else accepted_events frames o.1) h

abbrev Accounted : List Frame → EventStore → Type 0
Accounted frames s =
    All (IsAhead s) (accepted_events frames s) × IsOrdered (accepted_events frames s)

event-Accounted :
    (e : IncomingLifecycleEvent) (frames : List Frame) (s : EventStore)
    → ((t : EventStore) → Accounted frames t)
    → Accounted (event e ∷ frames) s
event-Accounted e frames s rest = elim (mark_cases e.event_id e.seq s) [
  | inl r ↦
      (let (x, p, n) = process_event-refused e s r.answer r.refused r.outcome in
        rw (accepted_events-event e frames s s x p) (rw n (rest s)))
  | inr m ↦
      (let (a, o) = rest (store_with s e.event_id m.number) in
        rw (accepted_events-event e frames s _ _ (process_event-accepted e s m)) (
          (
            (m.unknown, m.above),
            All-map (IsAhead (store_with s e.event_id m.number)) (IsAhead s) _
                (λ f. accepted-IsAhead e.event_id m.number s f (rw (sym m.numbered) m.above)) a,
          ),
          (
            All-map (IsAhead (store_with s e.event_id m.number)) (Follows e) _
                (λ f. accepted-Follows e m.number s f m.numbered) a,
            o,
          ),
        ))
]

accepted_All : (frames : List Frame) (s : EventStore) → Accounted frames s
unfolding accepted_events
accepted_All [] s = (tt, tt)
accepted_All (heartbeat seq ∷ frames) s =
    let (a, o) = accepted_All frames (after (heartbeat seq) s) in
    (All-map (IsAhead (after (heartbeat seq) s)) (IsAhead s) _ (heartbeat-IsAhead seq s) a, o)
accepted_All (event e ∷ frames) s = event-Accounted e frames s (accepted_All frames)

-- However events and heartbeats are interleaved on a new store, with duplicates, old numbers and
-- values that raise among them, the events that are accepted, taken in order, have pairwise different
-- identifiers and strictly rising sequence numbers.
pub accepted_events-IsOrdered : (frames : List Frame) → IsOrdered (accepted_events frames empty)
accepted_events-IsOrdered frames = (accepted_All frames empty).1
