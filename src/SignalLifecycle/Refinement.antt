-- ===== src/SignalLifecycle/Refinement.antt =====
-- The guard of app/signal_lifecycle_guard.py against an abstract machine: one state for each
-- signal, moved by the table of transitions.
use bitcoin_trading_strategy.Shared.{
  String, str_eq, ◌≡◌, refl, ◌⊎◌, inl, inr, Option, none, some, arith, eq_iff, if◌then◌else◌,
}
use bitcoin_trading_strategy.Shared.Result.{Error, Result-cases, ok, err}
use bitcoin_trading_strategy.Shared.Table.{find}
use bitcoin_trading_strategy.Shared.Text.{validate_identifier}
use bitcoin_trading_strategy.Protocol.{TradeIntent, TradeRequest}
use bitcoin_trading_strategy.SignalLifecycle.{
  SignalLifecycleState, SignalLifecycleStatus, accepted, invalid_transition,
  SignalLifecycleDecision, Guard, next_state_for, decision_of, advance, process, get_state, row_key,
  stored_state,
}
use bitcoin_trading_strategy.SignalLifecycle.Invariant.{
  IsWellFormed, view, stored_state-eq-view, view-write_row, write_row-IsWellFormed,
}

abbrev pub settled :
    Option SignalLifecycleState → Option SignalLifecycleState → Option SignalLifecycleState
settled previous none = previous
settled previous (some next) = some next

-- The state after a request: the next one, or the old one where there is none.
abbrev pub settle : Option SignalLifecycleState → TradeIntent → Option SignalLifecycleState
settle previous intent = settled previous (next_state_for previous intent)

abbrev pub verdict : Option SignalLifecycleState → SignalLifecycleStatus
verdict none = invalid_transition
verdict (some _) = accepted

-- On a well-formed database a request with two identifiers runs the table of transitions.
process-eq-advance :
    (request : TradeRequest) (g : Guard) (k e : String)
    → IsWellFormed g
    → validate_identifier request.signal_id ≡ ok k
    → validate_identifier request.event_id ≡ ok e
    → process request g
      ≡ advance k e request.intent (view g k) (next_state_for (view g k) request.intent) g
unfolding process
process-eq-advance request g k e w hk he = rw (hk, he) (rw (stored_state-eq-view g k w))

-- In a well-formed database, `process` on a request whose identifiers normalise to `k` and `e`
-- returns the decision of the table of transitions at the stored state of `k`, moves the state of
-- `k` by that table, leaves the state of every other signal alone, and keeps the database well
-- formed.
pub process-refines :
    (request : TradeRequest) (g : Guard) (k e : String)
    → IsWellFormed g
    → validate_identifier request.signal_id ≡ ok k
    → validate_identifier request.event_id ≡ ok e
    → ((process request g).0
        ≡ ok (
            decision_of k e
              (verdict (next_state_for (view g k) request.intent))
              request.intent
              (view g k)
              (next_state_for (view g k) request.intent)))
      × ((j : String)
          → view (process request g).1 j
            ≡ (if str_eq k j then settle (view g k) request.intent else view g j))
      × IsWellFormed (process request g).1
process-refines request g k e w hk he =
    rw (process-eq-advance request g k e w hk he)
      (go (next_state_for (view g k) request.intent) refl)
  where
    go :
        (o : Option SignalLifecycleState)
        → next_state_for (view g k) request.intent ≡ o
        → ((advance k e request.intent (view g k) o g).0
            ≡ ok (decision_of k e (verdict o) request.intent (view g k) o))
          × ((j : String)
              → view (advance k e request.intent (view g k) o g).1 j
                ≡ (if str_eq k j then settle (view g k) request.intent else view g j))
          × IsWellFormed (advance k e request.intent (view g k) o g).1
    go none h = unfold advance in (refl, (λ j. rw h (ground (arith, eq_iff k j))), w)
    go (some n) h =
        unfold advance in
        (refl, (λ j. rw h (view-write_row k e n g j w)), write_row-IsWellFormed k e n g w)

advance_atomic :
    (k e : String) (i : TradeIntent) (p o : Option SignalLifecycleState) (g : Guard)
    → ((d : SignalLifecycleDecision) × ((advance k e i p o g).0 ≡ ok d) × (d.status ≡ accepted))
      ⊎ ((advance k e i p o g).1 ≡ g)
unfolding advance
advance_atomic k e i p none g = inr refl
advance_atomic k e i p (some n) g = inl (decision_of k e accepted i p (some n), refl, refl)

-- Whatever the database holds, a call of `process` that does not return an accepted decision,
-- because it raises or because the table of transitions has no entry, leaves the database as it
-- was.
pub process_unchanged_unless_accepted :
    (request : TradeRequest) (g : Guard)
    → ((d : SignalLifecycleDecision) × ((process request g).0 ≡ ok d) × (d.status ≡ accepted))
      ⊎ ((process request g).1 ≡ g)
unfolding process
process_unchanged_unless_accepted request g =
    elim (Result-cases (validate_identifier request.signal_id)) [
      | inl (x, p) ↦ rw p (inr refl)
      | inr (k, p) ↦ rw p (elim (Result-cases (validate_identifier request.event_id)) [
        | inl (x, q) ↦ rw q (inr refl)
        | inr (e, q) ↦
            rw q (elim (Result-cases (stored_state (find row_key k g.signal_lifecycle))) [
              | inl (x, t) ↦ rw t (inr refl)
              | inr (s, t) ↦
                  rw t (advance_atomic k e request.intent s (next_state_for s request.intent) g)
            ])
      ])
    ]

-- What `get_state` returns on a well-formed database.
pub get_state-eq-view :
    (s : String) (g : Guard) (k : String)
    → IsWellFormed g
    → validate_identifier s ≡ ok k
    → get_state s g ≡ (ok (view g k), g)
unfolding get_state
get_state-eq-view s g k w h = rw h (rw (stored_state-eq-view g k w))

-- What a call does to a well-formed database.
pub process_cases :
    (request : TradeRequest) (g : Guard)
    → IsWellFormed g
    → ((x : Error) × (process request g ≡ (err x, g)))
      ⊎ ((k : String) × (e : String) × (process request g
            ≡ advance k e request.intent (view g k) (next_state_for (view g k) request.intent) g))
process_cases request g w = elim (Result-cases (validate_identifier request.signal_id)) [
  | inl (x, p) ↦ inl (x, unfold process in rw p)
  | inr (k, p) ↦ elim (Result-cases (validate_identifier request.event_id)) [
    | inl (x, q) ↦ inl (x, unfold process in rw (p, q))
    | inr (e, q) ↦ inr (k, e, process-eq-advance request g k e w p q)
  ]
]
