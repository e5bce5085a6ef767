-- ===== src/IbExecutionClient/Safety.antt =====
-- No event reaches the broker twice through app/ib_execution_client.py, whatever the calls, the
-- broker's callbacks and the restarts of the process.
use bitcoin_trading_strategy.Shared.{
  ℕ, ◌≤◌, String, str_eq, ◌≡◌, refl, inl, inr, Bool, true, false, Option, none, List, [], ◌∷◌,
  arith, eq_iff, All, filter, length, Bool-cases,
}
use mathlib.Core.Path.{subst}
use bitcoin_trading_strategy.Shared.Int.{ℤ}
use bitcoin_trading_strategy.Shared.Result.{Result}
use bitcoin_trading_strategy.Shared.Action.Keeps.{Keeps, Keeps-bind, Keeps-lift, keeps_rules}
use bitcoin_trading_strategy.Shared.Table.{find, IsKeyed}
use bitcoin_trading_strategy.Protocol.{TradeRequest}
use bitcoin_trading_strategy.DuplicateOrderGuard
use bitcoin_trading_strategy.ExecutionLedger.{
  ExecutionStatus, transition, get, contains, mark_rejected,
}
use bitcoin_trading_strategy.IbOrderFactory.{Contract, Order, IbOrderFactory}
use bitcoin_trading_strategy.IbExecutionClient.{
  BrokerCall, Client, new_client, on_ledger, reserve_in_guard, reserve_execution, restore_guard,
  submit_reserved, submit,
}
use bitcoin_trading_strategy.IbExecutionClient.Sent.{
  HasLeft, call_key, IsSafe, Preserves, on_ledger-IsSafe, on_guard-IsSafe, reserve-Preserves,
  transition-Preserves, send-IsSafe,
}

get-Preserves : (event_id : String) → Preserves (get event_id)
unfolding get
get-Preserves event_id k o = search keeps_rules

contains-Preserves : (event_id : String) → Preserves (contains event_id)
unfolding contains
contains-Preserves event_id k o = search keeps_rules

mark_rejected-Preserves :
    (now : ℕ) (event_id reason : String) → Preserves (mark_rejected now event_id reason)
unfolding mark_rejected
mark_rejected-Preserves now event_id reason k o =
    Keeps-bind _ _ (Keeps-lift _)
      (λ why. transition-Preserves now event_id _ none why (inl refl) k o)

ruleset safe_rules = (
  keeps_rules, on_ledger-IsSafe, on_guard-IsSafe, reserve-Preserves, get-Preserves,
  contains-Preserves, mark_rejected-Preserves,
)

reserve_in_guard-IsSafe : (request : TradeRequest) → Keeps IsSafe (reserve_in_guard request)
unfolding reserve_in_guard
reserve_in_guard-IsSafe request = search safe_rules

restore_guard-IsSafe : (request : TradeRequest) (b : Bool) → Keeps IsSafe (restore_guard request b)
unfolding restore_guard
restore_guard-IsSafe request true = search safe_rules
restore_guard-IsSafe request false = search (safe_rules, reserve_in_guard-IsSafe)

pub reserve_execution-IsSafe :
    (now : ℕ) (request : TradeRequest) → Keeps IsSafe (reserve_execution now request)
unfolding reserve_execution
reserve_execution-IsSafe now request = search (safe_rules, reserve_in_guard-IsSafe) depth 9

module _ (place_order : ℕ → Contract → Order → Result (Unit {0})) (factory : IbOrderFactory) where
  pub submit_reserved-IsSafe :
      (now : ℕ) (request : TradeRequest) (month : String) (broker_order_id : ℤ)
      → Keeps IsSafe (submit_reserved place_order factory now request month broker_order_id)
  unfolding submit_reserved
  submit_reserved-IsSafe now request month broker_order_id =
      search (safe_rules, restore_guard-IsSafe, send-IsSafe) depth 12

  pub submit-IsSafe :
      (now later : ℕ) (request : TradeRequest) (month : String) (broker_order_id : ℤ)
      → Keeps IsSafe (submit place_order factory now later request month broker_order_id)
  unfolding submit
  submit-IsSafe now later request month broker_order_id =
      search (safe_rules, reserve_execution-IsSafe, submit_reserved-IsSafe)

-- What can happen to the client: its methods are called, with any broker and any order factory; a
-- callback of the broker moves a record; the process is restarted, which empties the guard.
pub data Event : Type 1 where
  reserve_event : ℕ → TradeRequest → Event
  submit_reserved_event :
      (ℕ → Contract → Order → Result (Unit {0}))
      → IbOrderFactory
      → ℕ
      → TradeRequest
      → String
      → ℤ
      → Event
  submit_event :
      (ℕ → Contract → Order → Result (Unit {0}))
      → IbOrderFactory
      → ℕ
      → ℕ
      → TradeRequest
      → String
      → ℤ
      → Event
  callback : ℕ → String → ExecutionStatus → Option String → Event
  restart : Event

unfoldable pub step : Event → Client → Client
step (reserve_event now request) c = (reserve_execution now request c).1
step (submit_reserved_event place_order factory now request month broker_order_id) c =
    (submit_reserved place_order factory now request month broker_order_id c).1
step (submit_event place_order factory now later request month broker_order_id) c =
    (submit place_order factory now later request month broker_order_id c).1
step (callback now event_id status reason) c =
    (on_ledger (transition now event_id status none reason) c).1
step restart c = record c { guard = DuplicateOrderGuard.empty }

unfoldable pub run : List Event → Client → Client
run [] c = c
run (e ∷ es) c = run es (step e c)

step-IsSafe : (e : Event) (c : Client) → IsSafe c → IsSafe (step e c)
unfolding step
step-IsSafe (reserve_event now request) c h = (reserve_execution-IsSafe now request).at c h
step-IsSafe (submit_reserved_event p f now request month o) c h =
    (submit_reserved-IsSafe p f now request month o).at c h
step-IsSafe (submit_event p f now later request month o) c h =
    (submit-IsSafe p f now later request month o).at c h
step-IsSafe (callback now event_id status reason) c h =
    (on_ledger-IsSafe _ (transition-Preserves now event_id status none reason (inl refl))).at c h
step-IsSafe restart c h = record { recorded = h.recorded; once = h.once }

pub run-IsSafe : (es : List Event) (c : Client) → IsSafe c → IsSafe (run es c)
unfolding run
run-IsSafe [] c h = h
run-IsSafe (e ∷ es) c h = run-IsSafe es (step e c) (step-IsSafe e c h)

pub new_client-IsSafe : IsSafe new_client
new_client-IsSafe = record { recorded = tt; once = tt }

-- The calls of the broker about one event.
abbrev pub calls_about : String → Client → List BrokerCall
calls_about k c = filter (λ b. str_eq b.event_id k) c.calls

none_about :
    (k : String) (calls : List BrokerCall)
    → find call_key k calls ≡ none
    → filter (λ b. str_eq b.event_id k) calls ≡ []
unfolding find
none_about k [] h = refl
none_about k (b ∷ calls) h = ground (arith, none_about k calls)

at_most_one :
    (k : String) (calls : List BrokerCall)
    → IsKeyed call_key calls
    → length (filter (λ b. str_eq b.event_id k) calls) ≤ 1
at_most_one k [] h = omega arith
at_most_one k (b ∷ calls) h = elim (Bool-cases (str_eq b.event_id k)) [
  | inl e ↦ rw e (
      rw
        (none_about k calls
          (subst (λ j. find call_key j calls ≡ none) ((eq_iff b.event_id k).0 e) h.0))
        (omega arith))
  | inr e ↦ rw e (at_most_one k calls h.1)
]

-- From a new client, after any sequence of calls of reserve_execution, submit_reserved and submit,
-- with brokers that return or raise, of callbacks that move a record without an order identifier,
-- and of restarts that empty the duplicate guard, the broker has been called at most once about
-- each event.
pub submitted_at_most_once :
    (es : List Event) (k : String) → length (calls_about k (run es new_client)) ≤ 1
submitted_at_most_once es k =
    at_most_one k (run es new_client).calls (run-IsSafe es new_client new_client-IsSafe).once

-- From a new client, after any sequence of calls of reserve_execution, submit_reserved and submit,
-- of callbacks that move a record without an order identifier, and of restarts, every call of the
-- broker was about an event whose record in the ledger is not RESERVED and carries the order
-- identifier of the call.
pub calls_recorded :
    (es : List Event)
    → All (λ b. HasLeft (run es new_client).ledger b.event_id b.order_id) (run es new_client).calls
calls_recorded es = (run-IsSafe es new_client new_client-IsSafe).recorded
