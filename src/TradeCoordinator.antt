-- ===== src/TradeCoordinator.antt =====
-- app/trade_coordinator.py and trade_decision.py: from an accepted Eagle event to a decision.
mod Tests
use bitcoin_trading_strategy.Shared.{
  ◌≡◌, refl, ◌⊎◌, inl, inr, Bool, true, false, Option, none, some, [], arith, Bool-cases, sym, ◌∙◌,
  if◌then◌else◌,
}
use bitcoin_trading_strategy.Shared.Result.{Error, Result, Result-cases, ok, err}
use bitcoin_trading_strategy.Shared.Action.{Action, pure, lift, ◌>>=◌}
use bitcoin_trading_strategy.Protocol.{IncomingLifecycleEvent, TradeRequest, from_event}
use bitcoin_trading_strategy.TradingControls.{TradingControls, create_snapshot}
use bitcoin_trading_strategy.SignalLifecycle.{
  SignalLifecycleStatus, accepted, invalid_transition, SignalLifecycleDecision, Guard, process,
}
use bitcoin_trading_strategy.SignalLifecycle.Refinement.{process_unchanged_unless_accepted}

pub data TradeReason : Type 0 where
  reason_approved trading_paused invalid_signal_lifecycle : TradeReason

pub record TradeDecision : Type 0 where
  pub approved : Bool
  pub reason : TradeReason
  pub trade_request : Option TradeRequest

abbrev pub approval : TradeRequest → TradeDecision
approval request = record {
  approved = true;
  reason = reason_approved;
  trade_request = some request;
}

abbrev pub refusal : TradeReason → TradeDecision
refusal reason = record { approved = false; reason = reason; trade_request = none }

-- `prepare_event`, on the controls of the moment.
unfoldable pub prepare_event : TradingControls → IncomingLifecycleEvent → Result TradeDecision
prepare_event controls event =
    if controls.paused
    then ok (refusal trading_paused)
    else elim (from_event event (create_snapshot controls)) [
      | ok request ↦ ok (approval request)
      | err e ↦ err e
    ]

abbrev decision_for : TradeRequest → SignalLifecycleStatus → TradeDecision
decision_for request accepted = approval request
decision_for request invalid_transition = refusal invalid_signal_lifecycle

-- `commit_request`
unfoldable pub commit_request : TradeRequest → Action Guard TradeDecision
commit_request request = do d ← process request; pure (decision_for request d.status)

commit_prepared : TradeDecision → Action Guard TradeDecision
unfolding commit_request
commit_prepared prepared = elim prepared.trade_request [
  | none ↦ pure prepared
  | some request ↦ if prepared.approved then commit_request request else pure prepared
]

-- `process_event`. An approved decision of `prepare_event` always has a request.
unfoldable pub process_event : TradingControls → IncomingLifecycleEvent → Action Guard TradeDecision
unfolding commit_prepared
process_event controls event = do
  prepared ← lift (prepare_event controls event)
  commit_prepared prepared

-- An approved decision, and what it rests on.
abbrev pub IsApproval :
    TradingControls → IncomingLifecycleEvent → Guard → TradeDecision → Guard → Type 0
IsApproval controls event g d g' =
    (request : TradeRequest) × (d ≡ approval request)
    × (controls.paused ≡ false)
    × (from_event event (create_snapshot controls) ≡ ok request)
    × ((l : SignalLifecycleDecision) × (process request g ≡ (ok l, g')) × (l.status ≡ accepted))

accepted_or : (s : SignalLifecycleStatus) → (s ≡ accepted) ⊎ (s ≡ invalid_transition)
accepted_or accepted = inl refl
accepted_or invalid_transition = inr refl

-- `commit_request`, by how the guard answered.
abbrev answered :
    TradeRequest → Result SignalLifecycleDecision × Guard → Result TradeDecision × Guard
answered request (ok l, g) = (ok (decision_for request l.status), g)
answered request (err e, g) = (err e, g)

commit_request-answered :
    (request : TradeRequest) (g : Guard)
    → commit_request request g ≡ answered request (process request g)
unfolding commit_request
commit_request-answered request g = go (process request g)
  where
    go :
        (o : Result SignalLifecycleDecision × Guard)
        → ((λ _. o) >>= λ l. pure (decision_for request l.status)) g ≡ answered request o
    go (ok l, g') = refl
    go (err e, g') = refl

unaccepted :
    (request : TradeRequest) (g g' : Guard) (l : SignalLifecycleDecision)
    → process request g ≡ (ok l, g')
    → l.status ≡ invalid_transition
    → g' ≡ g
unaccepted request g g' l p i = elim (process_unchanged_unless_accepted request g) [
  | inl (d, q, a) ↦
      (let c : ok l ≡ ok d = rw p at q in
        let e : l ≡ d = ground (arith, c) in
        let x : accepted ≡ invalid_transition = rw (← a) (rw e at i) in ground (arith, x))
  | inr q ↦ rw p at q
]

decided :
    (request : TradeRequest) (g g' : Guard) (d : TradeDecision)
    (o : Result SignalLifecycleDecision × Guard)
    → process request g ≡ o
    → answered request o ≡ (ok d, g')
    → ((d ≡ approval request)
        × ((l : SignalLifecycleDecision) × (o ≡ (ok l, g')) × (l.status ≡ accepted)))
      ⊎ ((d ≡ refusal invalid_signal_lifecycle) × (g' ≡ g))
decided request g g' d (err e, s) p h = ground (arith, h)
decided request g g' d (ok l, s) p h = elim (accepted_or l.status) [
  | inl a ↦ (let c = rw a at h in inl (ground (arith, c), (l, ground (arith, c), a)))
  | inr i ↦
      (let c = rw i at h in
        inr (ground (arith, c), unaccepted request g g' l (p ∙ ground (arith, c)) i))
]

committed :
    (request : TradeRequest) (g g' : Guard) (d : TradeDecision)
    → commit_request request g ≡ (ok d, g')
    → ((d ≡ approval request)
        × ((l : SignalLifecycleDecision) × (process request g ≡ (ok l, g'))
            × (l.status ≡ accepted)))
      ⊎ ((d ≡ refusal invalid_signal_lifecycle) × (g' ≡ g))
committed request g g' d h =
    decided request g g' d (process request g) refl (sym (commit_request-answered request g) ∙ h)

-- What a call of process_event that returned has done: it approved the request that the event and the
-- settings make, trading was not paused, and the lifecycle guard accepted that request and recorded
-- it; or it approved nothing, and the guard's database is as it was.
pub process_event_outcome :
    (controls : TradingControls) (event : IncomingLifecycleEvent) (g g' : Guard) (d : TradeDecision)
    → process_event controls event g ≡ (ok d, g')
    → IsApproval controls event g d g'
      ⊎ ((d.approved ≡ false) × (d.trade_request ≡ none) × (g' ≡ g))
unfolding process_event commit_prepared prepare_event
process_event_outcome controls event g g' d h = elim (Bool-cases controls.paused) [
  | inl p ↦ (let c = rw p at h in inr (ground (arith, c), ground (arith, c), ground (arith, c)))
  | inr p ↦ elim (Result-cases (from_event event (create_snapshot controls))) [
    | inl (x, f) ↦ (let c = rw p at (rw f at h) in ground (arith, c))
    | inr (request, f) ↦ elim (committed request g g' d (rw p at (rw f at h))) [
      | inl (a, l) ↦ inl (request, a, p, f, l)
      | inr (r, same) ↦ inr (rw r refl, rw r refl, same)
    ]
  ]
]
