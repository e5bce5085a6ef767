-- ===== src/PaperTrader/Accepted.antt =====
-- What an accepted request does to the open rows of app/signal_lifecycle_guard.py, over the runs of
-- scripts/run_real_eagle_ib_paper_trader.py.
use mathlib.Core.Path.{subst, sym}
use bitcoin_trading_strategy.Shared.{
  String, str_eq, ◌≡◌, refl, ◌⊎◌, inl, inr, Bool, true, false, Option, none, some, List, [], ◌∷◌,
  filter, filter-append, All, arith, eq_iff, Bool-cases,
}
use bitcoin_trading_strategy.Shared.Result.{Result-cases, ok}
use bitcoin_trading_strategy.Shared.Table.{find, update}
use bitcoin_trading_strategy.Shared.Text.{validate_identifier}
use bitcoin_trading_strategy.Protocol.{
  TradeIntent, buy_to_open, sell_to_open, buy_to_close, sell_to_close, TradeRequest,
}
use bitcoin_trading_strategy.SignalLifecycle.{
  SignalLifecycleState, long_open, short_open, closed, accepted, SignalLifecycleDecision, Row,
  Guard, row_key, state_value, next_state_for, advance, process, write_row, new_row, renewed_row,
  stored_state,
}
use bitcoin_trading_strategy.PaperTrader.Reconcile.{is_open_row}
use bitcoin_trading_strategy.PaperTrader.Signals.{open_rows}

-- The parts of a call of `process` that accepted.
pub record Acceptance (request : TradeRequest) (g g' : Guard) : Type 0 where
  pub key : String
  pub event : String
  pub previous : Option SignalLifecycleState
  pub next : SignalLifecycleState
  pub key_valid : validate_identifier request.signal_id ≡ ok key
  pub legal : next_state_for previous request.intent ≡ some next
  pub written : g' ≡ write_row key event previous next g

advanced :
    (request : TradeRequest) (g g' : Guard) (d : SignalLifecycleDecision) (k e : String)
    (previous o : Option SignalLifecycleState)
    → validate_identifier request.signal_id ≡ ok k
    → next_state_for previous request.intent ≡ o
    → advance k e request.intent previous o g ≡ (ok d, g')
    → d.status ≡ accepted
    → Acceptance request g g'
unfolding advance
advanced request g g' d k e previous none v n h a = ground (arith, h, a)
advanced request g g' d k e previous (some next) v n h a = record {
  key = k;
  event = e;
  previous = previous;
  next = next;
  key_valid = v;
  legal = n;
  written = ground (arith, h);
}

pub acceptance :
    (request : TradeRequest) (g g' : Guard) (d : SignalLifecycleDecision)
    → process request g ≡ (ok d, g')
    → d.status ≡ accepted
    → Acceptance request g g'
unfolding process
acceptance request g g' d h a = elim (Result-cases (validate_identifier request.signal_id)) [
  | inl (x, p) ↦ (let c = rw p at h in ground (arith, c))
  | inr (k, p) ↦ elim (Result-cases (validate_identifier request.event_id)) [
    | inl (x, q) ↦ (let c = rw q at (rw p at h) in ground (arith, c))
    | inr (e, q) ↦ elim (Result-cases (stored_state (find row_key k g.signal_lifecycle))) [
      | inl (x, t) ↦ (let c = rw t at (rw q at (rw p at h)) in ground (arith, c))
      | inr (previous, t) ↦
          advanced request g g' d k e previous _ p refl (rw t at (rw q at (rw p at h))) a
    ]
  ]
]

-- The open rows after a row is written.
open_rows-new :
    (k e : String) (next : SignalLifecycleState) (g : Guard)
    → open_rows g ≡ []
    → open_rows (write_row k e none next g) ≡ filter is_open_row (new_row k e next ∷ [])
unfolding write_row
open_rows-new k e next g h = rw (filter-append is_open_row g.signal_lifecycle _) (rw h refl)

closed_row : (k e : String) (r : Row) → is_open_row (renewed_row k e closed r) ≡ false
unfolding is_open_row state_value
closed_row k e r = refl

closed_rows :
    (k e : String) (rows : List Row)
    → All (λ r. r.signal_id ≡ k) (filter is_open_row rows)
    → filter is_open_row (update row_key k (renewed_row k e closed) rows) ≡ []
unfolding update
closed_rows k e [] h = refl
closed_rows k e (r ∷ rows) h = elim (Bool-cases (is_open_row r)) [
  | inl o ↦
      (let both : (r.signal_id ≡ k) × All (λ r. r.signal_id ≡ k) (filter is_open_row rows) =
          rw o at h in
        let hit : str_eq r.signal_id k ≡ true = (eq_iff r.signal_id k).1 both.0 in
        rw hit (rw (closed_row k e r) (closed_rows k e rows both.1)))
  | inr o ↦ elim (Bool-cases (str_eq r.signal_id k)) [
    | inl p ↦ rw p (rw (closed_row k e r) (closed_rows k e rows (rw o at h)))
    | inr p ↦ rw p (rw o (closed_rows k e rows (rw o at h)))
  ]
]

opens_from :
    (p : Option SignalLifecycleState) (i : TradeIntent) (n : SignalLifecycleState)
    → next_state_for p i ≡ some n
    → ((p ≡ none)
        × (((i ≡ buy_to_open) × (n ≡ long_open)) ⊎ ((i ≡ sell_to_open) × (n ≡ short_open))))
      ⊎ ((s : SignalLifecycleState) × (p ≡ some s)
          × (n ≡ closed)
          × (((i ≡ sell_to_close) × (s ≡ long_open)) ⊎ ((i ≡ buy_to_close) × (s ≡ short_open))))
unfolding next_state_for
opens_from none buy_to_open n h = inl (refl, ground (arith, h))
opens_from none sell_to_open n h = inl (refl, ground (arith, h))
opens_from none _ n h = ground (arith, h)
opens_from (some long_open) sell_to_close n h =
    inr (long_open, refl, ground (arith, h), inl (refl, refl))
opens_from (some long_open) _ n h = ground (arith, h)
opens_from (some short_open) buy_to_close n h =
    inr (short_open, refl, ground (arith, h), inr (refl, refl))
opens_from (some short_open) _ n h = ground (arith, h)
opens_from (some closed) _ n h = ground (arith, h)

-- The state that an opening leaves its signal in.
abbrev pub opened_state : TradeIntent → SignalLifecycleState
opened_state sell_to_open = short_open
opened_state _ = long_open

abbrev pub is_opening : TradeIntent → Bool
is_opening buy_to_open = true
is_opening sell_to_open = true
is_opening _ = false

opened_row : (k e : String) (i : TradeIntent) → is_open_row (new_row k e (opened_state i)) ≡ true
unfolding is_open_row state_value
opened_row k e buy_to_open = refl
opened_row k e sell_to_open = refl
opened_row k e buy_to_close = refl
opened_row k e sell_to_close = refl

new_one :
    {request : TradeRequest} {g g' : Guard} (a : Acceptance request g g') (i : TradeIntent)
    → a.previous ≡ none
    → a.next ≡ opened_state i
    → open_rows g ≡ []
    → open_rows g' ≡ new_row a.key a.event (opened_state i) ∷ []
new_one a i p n h =
    subst (λ x. open_rows x ≡ new_row a.key a.event (opened_state i) ∷ []) (sym a.written)
      (rw p (
        rw n (
          rw (open_rows-new a.key a.event (opened_state i) _ h)
            (rw (opened_row a.key a.event i) refl))))

-- An accepted opening adds an open row.
pub accepted_opening :
    (request : TradeRequest) (g g' : Guard)
    → Acceptance request g g'
    → is_opening request.intent ≡ true
    → open_rows g ≡ []
    → (k e : String) × (open_rows g' ≡ new_row k e (opened_state request.intent) ∷ [])
accepted_opening request g g' a o h = elim (opens_from a.previous request.intent a.next a.legal) [
  | inl (p, inl (i, n)) ↦ (a.key, a.event, new_one a request.intent p (rw (i, n) refl) h)
  | inl (p, inr (i, n)) ↦ (a.key, a.event, new_one a request.intent p (rw (i, n) refl) h)
  | inr (s, p, n, inl (i, _)) ↦ (let c = rw i at o in ground (arith, c))
  | inr (s, p, n, inr (i, _)) ↦ (let c = rw i at o in ground (arith, c))
]

-- An accepted closing of the only open signal leaves none.
pub accepted_closing :
    (request : TradeRequest) (g g' : Guard) (r : Row)
    → Acceptance request g g'
    → is_opening request.intent ≡ false
    → open_rows g ≡ r ∷ []
    → validate_identifier request.signal_id ≡ ok r.signal_id
    → open_rows g' ≡ []
unfolding write_row
accepted_closing request g g' r a o h v =
    elim (opens_from a.previous request.intent a.next a.legal) [
      | inl (p, inl (i, n)) ↦ (let c = rw i at o in ground (arith, c))
      | inl (p, inr (i, n)) ↦ (let c = rw i at o in ground (arith, c))
      | inr (s, p, n, _) ↦
          let e = a.written in
          let k : r.signal_id ≡ a.key = ground (arith, v, a.key_valid) in
          subst (λ x. open_rows x ≡ []) (sym e)
            (rw p (rw n (closed_rows a.key a.event g.signal_lifecycle (rw h (k, tt)))))
    ]
