-- ===== src/IbOrderStatus/Callbacks.antt =====
-- What the callbacks of app/ib_order_status_transport.py do to the ledger.
use bitcoin_trading_strategy.Shared.{
  ℕ, ◌≤◌, String, str_eq, ◌≡◌, refl, ◌⊎◌, inl, inr, true, Option, none, some, List, [], ◌∷◌, arith,
  eq_iff, Bool-cases,
}
use bitcoin_trading_strategy.Shared.Int.{ℤ}
use bitcoin_trading_strategy.Shared.Result.{Result, Result-cases, ok, err}
use bitcoin_trading_strategy.Shared.Table.{find}
use bitcoin_trading_strategy.Shared.Action.{Action, lift, reads, ◌>>=◌}
use bitcoin_trading_strategy.Shared.Decimal.{Decimal}
use bitcoin_trading_strategy.ExecutionLedger.{
  ExecutionStatus, reserved, submitted, acknowledged, partially_filled, filled, cancelled, rejected,
  ordinal, status_in, allowed_transitions, terminal, ExecutionRecord, Ledger, record_key,
  moved_record, or_else, validate_broker_order_id, transition, mark_acknowledged,
  mark_partially_filled, mark_filled, mark_cancelled, mark_rejected, normalize_reason,
}
use bitcoin_trading_strategy.ExecutionLedger.Outcomes.{transition_cases}
use bitcoin_trading_strategy.ExecutionLedger.Runs.{find-moved}
use bitcoin_trading_strategy.IbOrderStatus.{
  handle_order_status, handle_rejection, settle, settle_rejection, apply_transition,
}

-- The ledger `l'` is `l`, or what one call of `transition` without an order identifier made of it.
abbrev OneMove : Ledger → Ledger → Type 0
OneMove l l' =
    (l' ≡ l)
    ⊎ ((now : ℕ) × (e : String) × (s : ExecutionStatus) × (w : Option String) × (l'
          ≡ (transition now e s none w l).1))

apply_transition-OneMove :
    (now : ℕ) (r : ExecutionRecord) (s : ExecutionStatus) (l : Ledger)
    → OneMove l (apply_transition now r s l).1
unfolding apply_transition mark_acknowledged mark_partially_filled mark_filled mark_cancelled
apply_transition-OneMove now r reserved l = inl refl
apply_transition-OneMove now r submitted l = inl refl
apply_transition-OneMove now r acknowledged l = inr (now, r.event_id, acknowledged, none, refl)
apply_transition-OneMove now r partially_filled l =
    inr (now, r.event_id, partially_filled, none, refl)
apply_transition-OneMove now r filled l = inr (now, r.event_id, filled, none, refl)
apply_transition-OneMove now r cancelled l =
    inr (now, r.event_id, cancelled, some "IB confirmed order cancellation.", refl)
apply_transition-OneMove now r rejected l = inl refl

settle-OneMove :
    (now order_id : ℕ) (text : String) (r : ExecutionRecord) (d : Option ExecutionStatus)
    (l : Ledger)
    → OneMove l (settle now order_id text r d l).1
unfolding settle
settle-OneMove now order_id text r none l = inl refl
settle-OneMove now order_id text r (some d) l = ground (arith, apply_transition-OneMove now r d l)

mark_rejected-OneMove :
    (now : ℕ) (e w : String) (l : Ledger) → OneMove l (mark_rejected now e w l).1
mark_rejected-OneMove now e w l = elim (Result-cases (normalize_reason (some w))) [
  | inl (x, p) ↦ inl (unfold mark_rejected in rw p)
  | inr (why, p) ↦ inr (now, e, rejected, why, unfold mark_rejected in rw p)
]

settle_rejection-OneMove :
    (now order_id : ℕ) (text why : String) (r : ExecutionRecord) (l : Ledger)
    → OneMove l (settle_rejection now order_id text why r l).1
unfolding settle_rejection
settle_rejection-OneMove now order_id text why r l =
    ground (arith, mark_rejected-OneMove now r.event_id why l)

-- An action that makes at most one move.
record MovesOnce {A : Type 0} (m : Action Ledger A) : Type 0 where
  at : (l : Ledger) → OneMove l (m l).1

module _ {A B : Type 0} where
  lift-MovesOnce :
      (r : Result A) (f : A → Action Ledger B)
      → ((a : A) → MovesOnce (f a))
      → MovesOnce (lift r >>= f)
  lift-MovesOnce (ok a) f h = record { at = λ l. (h a).at l }
  lift-MovesOnce (err e) f h = record { at = λ l. inl refl }

  reads-MovesOnce :
      (g : Ledger → Result A) (f : A → Action Ledger B)
      → ((a : A) → MovesOnce (f a))
      → MovesOnce (reads g >>= f)
  reads-MovesOnce g f h = record { at = λ l. (lift-MovesOnce (g l) f h).at l }

settle-MovesOnce :
    (now order_id : ℕ) (text : String) (r : ExecutionRecord) (d : Option ExecutionStatus)
    → MovesOnce (settle now order_id text r d)
settle-MovesOnce now order_id text r d = record { at = settle-OneMove now order_id text r d }

settle_rejection-MovesOnce :
    (now order_id : ℕ) (text why : String) (r : ExecutionRecord)
    → MovesOnce (settle_rejection now order_id text why r)
settle_rejection-MovesOnce now order_id text why r = record {
  at = settle_rejection-OneMove now order_id text why r;
}

handle_order_status-MovesOnce :
    (now : ℕ) (o : ℤ) (status : String) (f left : Option Decimal)
    → MovesOnce (handle_order_status now o status f left)
unfolding handle_order_status
handle_order_status-MovesOnce now o status f left =
    search (lift-MovesOnce, reads-MovesOnce, settle-MovesOnce) depth 8

handle_rejection-MovesOnce :
    (now : ℕ) (o : ℤ) (reason : String) → MovesOnce (handle_rejection now o reason)
unfolding handle_rejection
handle_rejection-MovesOnce now o reason =
    search (lift-MovesOnce, reads-MovesOnce, settle_rejection-MovesOnce) depth 8

-- How far a record has come: its status has not moved back, and nothing but the status, the
-- reason and the time of the update has changed; a terminal record has not changed at all.
abbrev pub Advanced : ExecutionRecord → ExecutionRecord → Type 0
Advanced r r' =
    (ordinal r.status ≤ ordinal r'.status)
    × (r' ≡ moved_record r'.status r.broker_order_id r'.reason r'.updated_at r)
    × (terminal r ≡ true → r' ≡ r)

Advanced-trans : (r s t : ExecutionRecord) → Advanced r s → Advanced s t → Advanced r t
Advanced-trans r s t (a, b, c) (x, y, z) =
    (omega arith, ground (arith, b, y), λ h. ground (arith, c h))

Advanced-refl : (r : ExecutionRecord) → Advanced r r
Advanced-refl r = (omega arith, refl, λ _. refl)

-- What the table of transitions allows.
moved-Advanced :
    (s : ExecutionStatus) (w : Option String) (now : ℕ) (r : ExecutionRecord)
    → status_in s (allowed_transitions r.status) ≡ true
    → Advanced r (moved_record s r.broker_order_id w now r)
unfolding allowed_transitions
moved-Advanced s w now r h = (ground arith, refl, λ t. ground arith)

transition-Advanced :
    (now : ℕ) (e : String) (s : ExecutionStatus) (w : Option String) (l : Ledger) (k : String)
    (r : ExecutionRecord)
    → find record_key k l.records ≡ some r
    → (r' : ExecutionRecord) × (find record_key k (transition now e s none w l).1.records ≡ some r')
      × Advanced r r'
transition-Advanced now e s w l k r f = elim (transition_cases now e s none w l) [
  | inl (x, p) ↦ (r, rw p f, Advanced-refl r)
  | inr m ↦ elim (Bool-cases (str_eq m.key k)) [
    | inl h ↦
        (let same : m.current ≡ r = ground (arith, m.found, eq_iff m.key k) in
          let kept : or_else m.broker m.current.broker_order_id ≡ r.broker_order_id =
            unfold validate_broker_order_id in ground (arith, m.broker_valid) in
          (
            moved_record s r.broker_order_id m.why now r,
            rw m.outcome
                (rw (find-moved k m.key m.current s _ m.why now l) (rw (h, kept) (rw f refl))),
            moved-Advanced s m.why now r (rw same at m.allowed),
          ))
    | inr h ↦ (
      r,
      rw m.outcome (rw (find-moved k m.key m.current s _ m.why now l) (rw h f)),
      Advanced-refl r,
    )
  ]
]

-- A callback of the broker.
pub data Callback : Type 0 where
  order_status : ℕ → ℤ → String → Option Decimal → Option Decimal → Callback
  rejection : ℕ → ℤ → String → Callback

-- The ledger after one callback, whose handler may have raised, and after some.
unfoldable pub heard : Callback → Ledger → Ledger
heard (order_status now o status f left) l = (handle_order_status now o status f left l).1
heard (rejection now o reason) l = (handle_rejection now o reason l).1

unfoldable pub heard_all : List Callback → Ledger → Ledger
unfolding heard
heard_all [] l = l
heard_all (c ∷ cs) l = heard_all cs (heard c l)

heard-OneMove : (c : Callback) (l : Ledger) → OneMove l (heard c l)
unfolding heard
heard-OneMove (order_status now o status f left) l =
    (handle_order_status-MovesOnce now o status f left).at l
heard-OneMove (rejection now o reason) l = (handle_rejection-MovesOnce now o reason).at l

heard-Advanced :
    (c : Callback) (l : Ledger) (k : String) (r : ExecutionRecord)
    → find record_key k l.records ≡ some r
    → (r' : ExecutionRecord) × (find record_key k (heard c l).records ≡ some r') × Advanced r r'
heard-Advanced c l k r f = elim (heard-OneMove c l) [
  | inl p ↦ (r, rw p f, Advanced-refl r)
  | inr (now, e, s, w, p) ↦ rw p (transition-Advanced now e s w l k r f)
]

-- Any callbacks in any order, late and repeated ones among them, and whether their handlers return
-- or raise, only advance a record: its status does not move back in the order RESERVED, SUBMITTED,
-- ACKNOWLEDGED, PARTIALLY_FILLED, FILLED, CANCELLED, REJECTED, a record with one of the last three
-- does not change, and no field changes but the status, the reason and the time of the update.
pub heard_all-Advanced :
    (cs : List Callback) (l : Ledger) (k : String) (r : ExecutionRecord)
    → find record_key k l.records ≡ some r
    → (r' : ExecutionRecord) × (find record_key k (heard_all cs l).records ≡ some r')
      × Advanced r r'
unfolding heard_all
heard_all-Advanced [] l k r f = (r, f, Advanced-refl r)
heard_all-Advanced (c ∷ cs) l k r f =
    let (s, g, a) = heard-Advanced c l k r f in
    let (t, h, b) = heard_all-Advanced cs (heard c l) k s g in (t, h, Advanced-trans r s t a b)
