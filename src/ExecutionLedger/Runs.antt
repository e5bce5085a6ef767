-- ===== src/ExecutionLedger/Runs.antt =====
-- Sequences of calls on the ledger of app/execution_ledger.py.
use bitcoin_trading_strategy.Shared.{
  ℕ, String, str_eq, ◌≡◌, refl, inl, inr, true, false, Option, none, some, List, [], ◌∷◌, arith,
  eq_iff, if◌then◌else◌,
}
use mathlib.Core.Option
use bitcoin_trading_strategy.Shared.Int.{ℤ}
use bitcoin_trading_strategy.Shared.Result.{ok, err, value_error}
use bitcoin_trading_strategy.Shared.Table
use bitcoin_trading_strategy.Shared.Table.{find}
use bitcoin_trading_strategy.Shared.Text.{validate_identifier}
use bitcoin_trading_strategy.Protocol.{TradeRequest}
use bitcoin_trading_strategy.ExecutionLedger.{
  ExecutionStatus, status_in, allowed_transitions, terminal, ExecutionRecord, ExecutionTransition,
  Ledger, empty, record_key, reserved_ledger, insert_record, reserve, moved_record,
  write_transition, transition, history,
}
use bitcoin_trading_strategy.ExecutionLedger.Outcomes.{reserve_cases, transition_cases}
use bitcoin_trading_strategy.ExecutionLedger.Audit.{
  IsAudited, empty-IsAudited, reserve-IsAudited, transition-IsAudited, replay, status_of,
  history_replays,
}

-- The calls that write. Every `mark_…` method is one call of `transition`, or raises.
pub data Call : Type 0 where
  reserve_call : ℕ → TradeRequest → Call
  transition_call : ℕ → String → ExecutionStatus → Option ℤ → Option String → Call

abbrev pub after : Call → Ledger → Ledger
after (reserve_call now request) l = (reserve now request l).1
after (transition_call now event_id new_status broker_order_id reason) l =
    (transition now event_id new_status broker_order_id reason l).1

-- The ledger after the calls, of which any may have raised.
unfoldable pub run : List Call → Ledger → Ledger
run [] l = l
run (c ∷ cs) l = run cs (after c l)

pub after-IsAudited : (c : Call) (l : Ledger) → IsAudited l → IsAudited (after c l)
after-IsAudited (reserve_call now request) l a = reserve-IsAudited now request l a
after-IsAudited (transition_call now e s b w) l a = transition-IsAudited now e s b w l a

pub run-IsAudited : (cs : List Call) (l : Ledger) → IsAudited l → IsAudited (run cs l)
unfolding run
run-IsAudited [] l a = a
run-IsAudited (c ∷ cs) l a = run-IsAudited cs (after c l) (after-IsAudited c l a)

-- After any calls on a new ledger, returning or raising, `history` of an event returns a list of
-- transitions that replays, each line legal after those before it, from no status to the status of
-- the event's record, or to no status where there is no record.
pub history-run :
    (cs : List Call) (event_id k : String)
    → validate_identifier event_id ≡ ok k
    → (ts : List ExecutionTransition) × (history event_id (run cs empty) ≡ (ok ts, run cs empty))
      × (replay none ts ≡ some (status_of k (run cs empty)))
history-run cs event_id k h =
    history_replays event_id (run cs empty) k (run-IsAudited cs empty empty-IsAudited) h

no_way_out :
    (r : ExecutionRecord) (s : ExecutionStatus)
    → terminal r ≡ true
    → status_in s (allowed_transitions r.status) ≡ false
unfolding allowed_transitions
no_way_out r s h = ground arith

pub find-reserved :
    (k : String) (r x : ExecutionRecord) (l : Ledger)
    → find record_key k l.records ≡ some x
    → find record_key k (reserved_ledger r l).records ≡ some x
unfolding reserved_ledger
find-reserved k r x l h = Table.find-append_old record_key k r x l.records h

pub find-moved :
    (j k : String) (c : ExecutionRecord) (s : ExecutionStatus) (b : Option ℕ) (w : Option String)
    (now : ℕ) (l : Ledger)
    → find record_key j (write_transition k c s b w now l).records ≡ (
        if str_eq k j
        then Option.map (moved_record s b w now) (find record_key j l.records)
        else find record_key j l.records)
unfolding write_transition
find-moved j k c s b w now l =
    Table.find-update record_key (moved_record s b w now) (λ x. refl) j k l.records

after-terminal :
    (c : Call) (l : Ledger) (k : String) (r : ExecutionRecord)
    → find record_key k l.records ≡ some r
    → terminal r ≡ true
    → find record_key k (after c l).records ≡ some r
after-terminal (reserve_call now request) l k r f t = elim (reserve_cases now request l) [
  | inl (x, p) ↦ rw (p, after) f
  | inr m ↦ rw (m.outcome, after) (find-reserved k _ r l f)
]
after-terminal (transition_call now e s b w) l k r f t = elim (transition_cases now e s b w l) [
  | inl (x, p) ↦ rw (p, after) f
  | inr m ↦
      rw (m.outcome, after)
        (rw (find-moved k m.key m.current s _ m.why now l)
          (ground (arith, eq_iff m.key k, no_way_out r s, m.found, m.allowed)))
]

-- A record whose status is terminal is never changed by any calls, returning or raising: neither
-- its status nor any other field.
pub run-terminal :
    (cs : List Call) (l : Ledger) (k : String) (r : ExecutionRecord)
    → find record_key k l.records ≡ some r
    → terminal r ≡ true
    → find record_key k (run cs l).records ≡ some r
unfolding run
run-terminal [] l k r f t = f
run-terminal (c ∷ cs) l k r f t = run-terminal cs (after c l) k r (after-terminal c l k r f t) t

-- An event whose identifier has a record cannot be reserved again, whatever else the request says:
-- `reserve` raises `ValueError` and writes nothing.
pub reserve_known :
    (now : ℕ) (request : TradeRequest) (l : Ledger) (k : String) (r : ExecutionRecord)
    → validate_identifier request.event_id ≡ ok k
    → find record_key k l.records ≡ some r
    → reserve now request l ≡ (err value_error, l)
unfolding reserve insert_record validate_identifier
reserve_known now request l k r h f = ground arith
