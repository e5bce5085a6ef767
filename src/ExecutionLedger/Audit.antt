-- ===== src/ExecutionLedger/Audit.antt =====
-- The audit trail of app/execution_ledger.py: what `history` returns for an event replays, by the
-- table of transitions, to the status of its record.
use bitcoin_trading_strategy.Shared.{
  ℕ, ◌+◌, ◌<◌, String, str_eq, ◌≡◌, refl, inl, inr, Bool, true, false, ◌&&◌, Option, none, some,
  List, [], ◌∷◌, ◌++◌, arith, eq_iff, filter, leb, All, All-append, All-map, All-filter,
  if◌then◌else◌,
}
use mathlib.Core.Option
use bitcoin_trading_strategy.Shared.Int.{ℤ}
use bitcoin_trading_strategy.Shared.Result.{ok}
use bitcoin_trading_strategy.Shared.Table
use bitcoin_trading_strategy.Shared.Table.{find, update, IsKeyed}
use bitcoin_trading_strategy.Shared.Sort.{sort_by}
use bitcoin_trading_strategy.Shared.Text.{validate_identifier}
use bitcoin_trading_strategy.Protocol.{TradeRequest}
use bitcoin_trading_strategy.ExecutionLedger.{
  ExecutionStatus, reserved, same_status, status_in, allowed_transitions, ExecutionRecord,
  ExecutionTransition, Ledger, empty, record_key, reserved_ledger, reserve, moved_record,
  write_transition, log_transition, transition, history,
}
use bitcoin_trading_strategy.ExecutionLedger.Outcomes.{reserve_cases, transition_cases}

-- Whether a line of the trail may follow the status so far.
legal : Option ExecutionStatus → ExecutionTransition → Bool
legal none t = elim t.from_status [ none ↦ same_status t.to_status reserved | some _ ↦ false ]
legal (some s) t = elim t.from_status [
  | none ↦ false
  | some from ↦ same_status from s && status_in t.to_status (allowed_transitions s)
]

-- The status that a trail leads to, if every line of it is legal.
pub replay : Option ExecutionStatus → List ExecutionTransition → Option (Option ExecutionStatus)
unfolding legal
replay s [] = some s
replay s (t ∷ ts) = let rest = replay (some t.to_status) ts in if legal s t then rest else none

replay_step :
    Option (Option ExecutionStatus) → ExecutionTransition → Option (Option ExecutionStatus)
replay_step none t = none
replay_step (some s) t = if legal s t then some (some t.to_status) else none

replay-append :
    (s : Option ExecutionStatus) (ts : List ExecutionTransition) (t : ExecutionTransition)
    → replay s (ts ++ t ∷ []) ≡ replay_step (replay s ts) t
unfolding replay replay_step
replay-append s [] t = refl
replay-append s (u ∷ ts) t = ground (arith, replay-append (some u.to_status) ts t)

-- The lines of the trail about one event, in the order in which they were written.
abbrev pub trail : String → Ledger → List ExecutionTransition
trail k l = filter (λ t. str_eq t.event_id k) l.transitions

abbrev pub status_of : String → Ledger → Option ExecutionStatus
status_of k l = Option.map (λ r. r.status) (find record_key k l.records)

filter-append :
    (p : ExecutionTransition → Bool) (xs : List ExecutionTransition) (t : ExecutionTransition)
    → filter p (xs ++ t ∷ []) ≡ (if p t then filter p xs ++ t ∷ [] else filter p xs)
filter-append p [] t = ground arith
filter-append p (x ∷ xs) t = ground (arith, filter-append p xs t)

-- Identifiers rise along the table, below the counter.
abbrev IsRising : List ExecutionTransition → Type 0
IsRising [] = Unit
IsRising (t ∷ ts) = All (λ u. t.transition_id < u.transition_id) ts × IsRising ts

pub record IsAudited (l : Ledger) : Type 0 where
  pub keyed : IsKeyed record_key l.records
  pub replays : (k : String) → replay none (trail k l) ≡ some (status_of k l)
  pub rising : IsRising l.transitions
  pub below : All (λ t. t.transition_id < l.next_transition_id) l.transitions

IsRising-append :
    (ts : List ExecutionTransition) (t : ExecutionTransition)
    → IsRising ts
    → All (λ u. u.transition_id < t.transition_id) ts
    → IsRising (ts ++ t ∷ [])
IsRising-append [] t h b = (tt, tt)
IsRising-append (u ∷ ts) t h b = (
  All-append (λ v. u.transition_id < v.transition_id) ts (t ∷ []) h.0 (b.0, tt),
  IsRising-append ts t h.1 b.1,
)

pub empty-IsAudited : IsAudited empty
unfolding replay find
empty-IsAudited = record { keyed = tt; replays = λ k. refl; rising = tt; below = tt }

module _ (k : String) (from : Option ExecutionStatus) (to : ExecutionStatus) (broker : Option ℕ)
    (why : Option String) (now : ℕ) (l : Ledger) where
  -- The new line of the trail.
  abbrev line : ExecutionTransition
  line = record {
    transition_id = l.next_transition_id;
    event_id = k;
    from_status = from;
    to_status = to;
    broker_order_id = broker;
    reason = why;
    timestamp = now;
  }

  -- One write of records with one line about them keeps the trail in step.
  log-IsAudited :
      (records' : List ExecutionRecord)
      → IsAudited l
      → IsKeyed record_key records'
      → legal (status_of k l) line ≡ true
      → ((j : String)
          → Option.map (λ r. r.status) (find record_key j records')
            ≡ (if str_eq k j then some to else status_of j l))
      → IsAudited (log_transition k from to broker why now (record l { records = records' }))
  unfolding log_transition
  log-IsAudited records' a keyed ok_line moved = record {
    keyed = keyed;
    replays = λ j.
        rw (filter-append (λ t. str_eq t.event_id j) l.transitions line)
          (rw (moved j) (go j (str_eq k j) refl));
    rising = IsRising-append l.transitions line a.rising a.below;
    below =
        All-append (λ t. t.transition_id < l.next_transition_id + 1) l.transitions (line ∷ [])
          (All-map (λ t. t.transition_id < l.next_transition_id)
            (λ t. t.transition_id < l.next_transition_id + 1) l.transitions (λ t h. omega arith)
            a.below)
          (omega arith, tt);
  }
    where
      go :
          (j : String) (b : Bool)
          → str_eq k j ≡ b
          → replay none (if b then trail j l ++ line ∷ [] else trail j l)
            ≡ some (if b then some to else status_of j l)
      go j true e =
          rw (replay-append none (trail j l) line)
            (rw (a.replays j) (rw (← (eq_iff k j).0 e) (unfold replay_step in rw ok_line)))
      go j false e = a.replays j

reserved-IsAudited :
    (r : ExecutionRecord) (l : Ledger)
    → IsAudited l
    → r.status ≡ reserved
    → find record_key r.event_id l.records ≡ none
    → IsAudited (reserved_ledger r l)
unfolding reserved_ledger
reserved-IsAudited r l a s f =
    log-IsAudited r.event_id none reserved none none r.created_at l (l.records ++ r ∷ []) a
      (Table.IsKeyed-append record_key r l.records a.keyed f) (unfold legal in rw f)
      λ j. rw (Table.find-insert record_key j r l.records f) (ground arith)

moved-IsAudited :
    (k : String) (c : ExecutionRecord) (new_status : ExecutionStatus) (broker : Option ℕ)
    (why : Option String) (now : ℕ) (l : Ledger)
    → IsAudited l
    → find record_key k l.records ≡ some c
    → status_in new_status (allowed_transitions c.status) ≡ true
    → IsAudited (write_transition k c new_status broker why now l)
unfolding write_transition
moved-IsAudited k c new_status broker why now l a f allowed =
    log-IsAudited k (some c.status) new_status broker why now l
      (update record_key k (moved_record new_status broker why now) l.records) a
      (Table.IsKeyed-update record_key (moved_record new_status broker why now) (λ x. refl) k
        l.records a.keyed)
      (unfold legal in rw f (ground arith))
      λ j.
        rw
          (Table.find-update record_key (moved_record new_status broker why now) (λ x. refl) j k
            l.records)
          (ground (arith, eq_iff k j))

-- A call of `reserve` keeps the trail in step with the records, whether it returns or raises.
pub reserve-IsAudited :
    (now : ℕ) (request : TradeRequest) (l : Ledger)
    → IsAudited l
    → IsAudited (reserve now request l).1
reserve-IsAudited now request l a = elim (reserve_cases now request l) [
  | inl (x, p) ↦ rw p a
  | inr m ↦ rw m.outcome (reserved-IsAudited _ l a refl m.fresh)
]

-- So does a call of `transition`.
pub transition-IsAudited :
    (now : ℕ) (event_id : String) (new_status : ExecutionStatus) (broker_order_id : Option ℤ)
    (reason : Option String) (l : Ledger)
    → IsAudited l
    → IsAudited (transition now event_id new_status broker_order_id reason l).1
transition-IsAudited now event_id new_status broker_order_id reason l a =
    elim (transition_cases now event_id new_status broker_order_id reason l) [
      | inl (x, p) ↦ rw p a
      | inr m ↦
          rw m.outcome
            (moved-IsAudited m.key m.current new_status _ m.why now l a m.found m.allowed)
    ]

-- A list in the order of its identifiers is left as it is by `ORDER BY transition_id`.
sort-IsRising :
    (ts : List ExecutionTransition)
    → IsRising ts
    → sort_by (λ s t. leb s.transition_id t.transition_id) ts ≡ ts
unfolding sort_by
sort-IsRising [] h = refl
sort-IsRising (t ∷ []) h = refl
sort-IsRising (t ∷ u ∷ ts) h = rw (sort-IsRising (u ∷ ts) h.1) (ground (arith, h.0))

IsRising-filter :
    (p : ExecutionTransition → Bool) (ts : List ExecutionTransition)
    → IsRising ts
    → IsRising (filter p ts)
IsRising-filter p [] h = h
IsRising-filter p (t ∷ ts) h =
    ground (
      arith,
      All-filter (λ u. t.transition_id < u.transition_id) p ts h.0,
      IsRising-filter p ts h.1,
    )

-- In a ledger whose trail is in step, `history` of an event returns a list of transitions that
-- replays, each line legal after those before it, from no status to the status of the event's
-- record, or is empty where there is no record.
pub history_replays :
    (event_id : String) (l : Ledger) (k : String)
    → IsAudited l
    → validate_identifier event_id ≡ ok k
    → (ts : List ExecutionTransition) × (history event_id l ≡ (ok ts, l))
      × (replay none ts ≡ some (status_of k l))
history_replays event_id l k a h = (
  trail k l,
  unfold history in
      rw h (
        rw (
          sort-IsRising (trail k l)
            (IsRising-filter (λ t. str_eq t.event_id k) l.transitions a.rising))),
  a.replays k,
)
