-- ===== src/SignalLifecycle/Lives.antt =====
-- The life of one signal under the guard of app/signal_lifecycle_guard.py, over every sequence of
-- requests.
use bitcoin_trading_strategy.Shared.{
  String, str_eq, ◌≡◌, refl, ◌⊎◌, inl, inr, Bool, true, false, Option, none, some, List, [], ◌∷◌,
  ◌&&◌, arith, eq_iff, Bool-cases, if◌then◌else◌,
}
use bitcoin_trading_strategy.Shared.Table.{find}
use bitcoin_trading_strategy.Shared.Result.{Result, ok, err}
use bitcoin_trading_strategy.Protocol.{
  TradeIntent, buy_to_open, sell_to_open, buy_to_close, sell_to_close, TradeRequest,
}
use bitcoin_trading_strategy.SignalLifecycle.{
  SignalLifecycleState, closed, SignalLifecycleStatus, accepted, invalid_transition,
  SignalLifecycleDecision, Guard, next_state_for, advance, process, write_row, empty,
}
use bitcoin_trading_strategy.SignalLifecycle.Invariant.{
  IsWellFormed, view, view-write_row, write_row-IsWellFormed,
}
use bitcoin_trading_strategy.SignalLifecycle.Refinement.{process_cases}

-- A list of intents that the table of transitions admits one after the other.
abbrev pub Follows : Option SignalLifecycleState → List TradeIntent → Type 0
Follows s [] = Unit
Follows s (i ∷ is) =
    (n : SignalLifecycleState) × (next_state_for s i ≡ some n) × Follows (some n) is

-- The lives of a signal.
abbrev pub IsLife : List TradeIntent → Type 0
IsLife is =
    (is ≡ [])
    ⊎ (is ≡ buy_to_open ∷ [])
    ⊎ (is ≡ sell_to_open ∷ [])
    ⊎ (is ≡ buy_to_open ∷ sell_to_close ∷ [])
    ⊎ (is ≡ sell_to_open ∷ buy_to_close ∷ [])

after_close : (is : List TradeIntent) → Follows (some closed) is → is ≡ []
unfolding next_state_for
after_close [] h = refl
after_close (i ∷ is) h = ground arith

Follows-IsLife : (is : List TradeIntent) → Follows none is → IsLife is
unfolding next_state_for
Follows-IsLife [] h = ground arith
Follows-IsLife (buy_to_open ∷ []) h = ground arith
Follows-IsLife (sell_to_open ∷ []) h = ground arith
Follows-IsLife (buy_to_open ∷ sell_to_close ∷ is) h = ground (arith, after_close is)
Follows-IsLife (sell_to_open ∷ buy_to_close ∷ is) h = ground (arith, after_close is)
Follows-IsLife (i ∷ j ∷ is) h = ground arith
Follows-IsLife (i ∷ is) h = ground arith

record_decision :
    Result SignalLifecycleDecision → List SignalLifecycleDecision → List SignalLifecycleDecision
record_decision (ok d) ds = d ∷ ds
record_decision (err _) ds = ds

-- The decisions that a sequence of calls of `process` returns.
unfoldable pub decisions : List TradeRequest → Guard → List SignalLifecycleDecision
unfolding record_decision
decisions [] g = []
decisions (q ∷ qs) g = let (r, g') = process q g in record_decision r (decisions qs g')

abbrev is_accepted : SignalLifecycleStatus → Bool
is_accepted accepted = true
is_accepted invalid_transition = false

-- The intents that were accepted for the signal `k`.
unfoldable pub accepted_intents : String → List SignalLifecycleDecision → List TradeIntent
accepted_intents k [] = []
accepted_intents k (d ∷ ds) =
    let rest = accepted_intents k ds in
    if is_accepted d.status && str_eq d.signal_id k then d.intent ∷ rest else rest

module _ (k : String) (rest : Guard → List SignalLifecycleDecision) where
  advance-Follows :
      (j e : String) (i : TradeIntent) (o : Option SignalLifecycleState) (g : Guard)
      → ((g' : Guard) → IsWellFormed g' → Follows (view g' k) (accepted_intents k (rest g')))
      → IsWellFormed g
      → next_state_for (view g j) i ≡ o
      → let (r, g') = advance j e i (view g j) o g in
        Follows (view g k) (accepted_intents k (record_decision r (rest g')))
  unfolding advance accepted_intents record_decision
  advance-Follows j e i none g rec w h = rec g w
  advance-Follows j e i (some n) g rec w h = elim (Bool-cases (str_eq j k)) [
    | inl same ↦
        rw same
          (n, rw (← (eq_iff j k).0 same) h, rw same at (rw (view-write_row j e n g k w) at later))
    | inr differ ↦ rw differ (rw differ at (rw (view-write_row j e n g k w) at later))
  ]
    where
      later :
          Follows
            (view (write_row j e (view g j) n g) k)
            (accepted_intents k (rest (write_row j e (view g j) n g)))
      later = rec (write_row j e (view g j) n g) (write_row-IsWellFormed j e n g w)

decisions-Follows :
    (qs : List TradeRequest) (g : Guard) (k : String)
    → IsWellFormed g
    → Follows (view g k) (accepted_intents k (decisions qs g))
unfolding decisions accepted_intents
decisions-Follows [] g k w = tt
decisions-Follows (q ∷ qs) g k w = elim (process_cases q g w) [
  | inl (x, p) ↦ rw p (unfold record_decision in decisions-Follows qs g k w)
  | inr (j, e, p) ↦ rw p (
      advance-Follows k (decisions qs) j e q.intent (next_state_for (view g j) q.intent) g
        (λ g' w'. decisions-Follows qs g' k w') w refl)
]

empty-IsWellFormed : IsWellFormed empty
empty-IsWellFormed = record { keyed = tt; states = tt }

-- In any sequence of calls of `process` on a new database, the requests accepted for one signal
-- are, in order: none, one opening, or one opening and then the closing of the same direction. No
-- signal is opened twice, closed before it is opened, closed twice, or reused once closed.
pub decisions-IsLife :
    (qs : List TradeRequest) (k : String) → IsLife (accepted_intents k (decisions qs empty))
unfolding view find
decisions-IsLife qs k =
    Follows-IsLife (accepted_intents k (decisions qs empty))
      (decisions-Follows qs empty k empty-IsWellFormed)
