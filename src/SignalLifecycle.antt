-- ===== src/SignalLifecycle.antt =====
-- app/signal_lifecycle_guard.py: the durable state machine of each Eagle signal.
pub mod Lives
mod Tests
pub mod Invariant
pub mod Refinement
use bitcoin_trading_strategy.Shared.{
  String, str_eq, Option, none, some, List, [], ◌∷◌, ◌++◌, if◌then◌else◌,
}
use bitcoin_trading_strategy.Shared.Result.{Result, ok, err, runtime_error, map_ok}
use bitcoin_trading_strategy.Shared.Result
use bitcoin_trading_strategy.Shared.Sort.{sort_by, text_leb}
use bitcoin_trading_strategy.Shared.Action.{Action, pure, lift, gets, reads, modify, ◌>>=◌, ◌>>◌}
use bitcoin_trading_strategy.Shared.Text.{validate_identifier}
use bitcoin_trading_strategy.Shared.Table.{find, update}
use bitcoin_trading_strategy.Protocol.{
  TradeIntent, buy_to_open, sell_to_open, buy_to_close, sell_to_close, TradeRequest,
}

pub data SignalLifecycleState : Type 0 where
  long_open short_open closed : SignalLifecycleState

unfoldable pub state_value : SignalLifecycleState → String
state_value long_open = "LongOpen"
state_value short_open = "ShortOpen"
state_value closed = "Closed"

-- `SignalLifecycleState(text)`, where the callers turn the `ValueError` into a `RuntimeError`.
unfoldable pub state_of_value : String → Result SignalLifecycleState
state_of_value text =
    if str_eq text "LongOpen"
    then ok long_open
    else if str_eq text "ShortOpen"
    then ok short_open
    else if str_eq text "Closed"
    then ok closed
    else err runtime_error

pub data SignalLifecycleStatus : Type 0 where
  accepted invalid_transition : SignalLifecycleStatus

pub record SignalLifecycleDecision : Type 0 where
  pub status : SignalLifecycleStatus
  pub signal_id : String
  pub event_id : String
  pub intent : TradeIntent
  pub previous_state : Option SignalLifecycleState
  pub next_state : Option SignalLifecycleState

pub record SignalLifecycleSnapshot : Type 0 where
  pub signal_id : String
  pub state : SignalLifecycleState
  pub last_event_id : String

-- A row of the table `signal_lifecycle`; the state is stored as text.
pub record Row : Type 0 where
  pub signal_id : String
  pub state : String
  pub last_event_id : String

-- The SQLite database of the guard.
pub record Guard : Type 0 where
  pub signal_lifecycle : List Row

abbrev pub row_key : Row → String
row_key r = r.signal_id

abbrev pub empty : Guard
empty = record { signal_lifecycle = [] }

-- `_next_state_for`
unfoldable pub next_state_for :
    Option SignalLifecycleState → TradeIntent → Option SignalLifecycleState
next_state_for none buy_to_open = some long_open
next_state_for none sell_to_open = some short_open
next_state_for none _ = none
next_state_for (some long_open) sell_to_close = some closed
next_state_for (some long_open) _ = none
next_state_for (some short_open) buy_to_close = some closed
next_state_for (some short_open) _ = none
next_state_for (some closed) _ = none

-- The state that a fetched row stores.
unfoldable pub stored_state : Option Row → Result (Option SignalLifecycleState)
stored_state none = ok none
stored_state (some row) = map_ok some (state_of_value row.state)

module _ (signal_id event_id : String) where
  abbrev pub new_row : SignalLifecycleState → Row
  new_row next = record {
    signal_id = signal_id;
    state = state_value next;
    last_event_id = event_id;
  }

  abbrev pub renewed_row : SignalLifecycleState → Row → Row
  renewed_row next r = record r { state = state_value next; last_event_id = event_id }

  -- The INSERT of a new signal, or the UPDATE of a known one.
  unfoldable pub write_row : Option SignalLifecycleState → SignalLifecycleState → Guard → Guard
  write_row none next g = record { signal_lifecycle = g.signal_lifecycle ++ new_row next ∷ [] }
  write_row (some _) next g = record {
    signal_lifecycle = update row_key signal_id (renewed_row next) g.signal_lifecycle;
  }

  pub decision_of :
      SignalLifecycleStatus
      → TradeIntent
      → Option SignalLifecycleState
      → Option SignalLifecycleState
      → SignalLifecycleDecision
  decision_of status intent previous next = record {
    status = status;
    signal_id = signal_id;
    event_id = event_id;
    intent = intent;
    previous_state = previous;
    next_state = next;
  }

  -- What `process` does with the next state that the table of transitions gives.
  unfoldable pub advance :
      TradeIntent
      → Option SignalLifecycleState
      → Option SignalLifecycleState
      → Action Guard SignalLifecycleDecision
  unfolding write_row decision_of
  advance intent previous none = pure (decision_of invalid_transition intent previous none)
  advance intent previous (some next) = do
    modify (write_row previous next)
    pure (decision_of accepted intent previous (some next))

-- `process`
unfoldable pub process : TradeRequest → Action Guard SignalLifecycleDecision
unfolding stored_state advance
process request = do
  signal_id ← lift (validate_identifier request.signal_id)
  event_id ← lift (validate_identifier request.event_id)
  row ← gets (λ g. find row_key signal_id g.signal_lifecycle)
  previous ← lift (stored_state row)
  advance signal_id event_id request.intent previous (next_state_for previous request.intent)

-- `get_state`
unfoldable pub get_state : String → Action Guard (Option SignalLifecycleState)
unfolding stored_state
get_state signal_id = do
  key ← lift (validate_identifier signal_id)
  row ← gets (λ g. find row_key key g.signal_lifecycle)
  lift (stored_state row)

snapshot_of : Row → Result SignalLifecycleSnapshot
snapshot_of row =
    map_ok (λ s. record { signal_id = row.signal_id; state = s; last_event_id = row.last_event_id })
      (state_of_value row.state)

-- `get_snapshot`
unfoldable pub get_snapshot : String → Action Guard (Option SignalLifecycleSnapshot)
unfolding snapshot_of
get_snapshot signal_id = do
  key ← lift (validate_identifier signal_id)
  row ← gets (λ g. find row_key key g.signal_lifecycle)
  lift (elim row [ none ↦ ok none | some r ↦ map_ok some (snapshot_of r) ])

-- The loop of `all_snapshots`, which raises at the first bad row.
snapshots_of : List Row → Result (List SignalLifecycleSnapshot)
unfolding snapshot_of
snapshots_of [] = ok []
snapshots_of (row ∷ rows) =
    Result.◌>>=◌ (snapshot_of row) (λ s. map_ok (λ rest. s ∷ rest) (snapshots_of rows))

-- `all_snapshots`
unfoldable pub all_snapshots : Action Guard (List SignalLifecycleSnapshot)
unfolding snapshots_of
all_snapshots =
    reads (λ g. snapshots_of (sort_by (λ a b. text_leb a.signal_id b.signal_id) g.signal_lifecycle))
