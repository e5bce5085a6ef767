-- ===== src/EventTrackers.antt =====
-- app/idempotency_manager.py and app/sequence_manager.py: the in-memory trackers of events and of
-- sequence numbers.
mod Tests
pub mod Agreement
use bitcoin_trading_strategy.Shared.{
  ℕ, String, Bool, true, false, Option, none, some, List, [], ◌∷◌, ◌++◌, not, ltb, if◌then◌else◌,
}
use bitcoin_trading_strategy.Shared.Int.{ℤ, pos, negsuc}
use bitcoin_trading_strategy.Shared.Result.{Result, ok, err, value_error, map_ok}
use bitcoin_trading_strategy.Shared.Action.{Action, lift, gets, modify, ◌>>=◌, ◌>>◌}
use bitcoin_trading_strategy.Shared.Text.{validate_identifier}
use bitcoin_trading_strategy.EventStore.{is_processed, validate_event_id, validate_seq}

-- The set `_processed_event_ids`, in order of insertion.
pub record IdempotencyManager : Type 0 where
  pub processed_event_ids : List String

abbrev pub new_idempotency_manager : IdempotencyManager
new_idempotency_manager = record { processed_event_ids = [] }

-- `add` of a set
abbrev pub add_id : String → IdempotencyManager → IdempotencyManager
add_id key m =
    if is_processed key m.processed_event_ids
    then m
    else record { processed_event_ids = m.processed_event_ids ++ key ∷ [] }

-- `IdempotencyManager.has_processed`
unfoldable pub has_processed : String → Action IdempotencyManager Bool
has_processed event_id = do
  key ← lift (validate_event_id event_id)
  gets (λ m. is_processed key m.processed_event_ids)

-- `IdempotencyManager.mark_processed`
unfoldable pub mark_id_processed : String → Action IdempotencyManager (Unit {0})
mark_id_processed event_id = do key ← lift (validate_event_id event_id); modify (add_id key)

check_and_add : String → Action IdempotencyManager Bool
check_and_add key m =
    if is_processed key m.processed_event_ids then (ok false, m) else (ok true, add_id key m)

-- `IdempotencyManager.check_and_mark`
unfoldable pub check_and_mark_id : String → Action IdempotencyManager Bool
unfolding check_and_add
check_and_mark_id event_id = do key ← lift (validate_event_id event_id); check_and_add key

pub record SequenceManager : Type 0 where
  pub last_seq : Option ℕ

abbrev pub new_sequence_manager : SequenceManager
new_sequence_manager = record { last_seq = none }

abbrev pub above_last : ℕ → Option ℕ → Bool
above_last seq none = true
above_last seq (some last) = ltb last seq

-- `SequenceManager.is_newer`
unfoldable pub is_newer : ℤ → Action SequenceManager Bool
is_newer seq = do n ← lift (validate_seq seq); gets (λ m. above_last n m.last_seq)

-- `SequenceManager.mark_processed`
unfoldable pub mark_newer_processed : ℤ → Action SequenceManager (Unit {0})
mark_newer_processed seq = do
  n ← lift (validate_seq seq)
  modify (λ m. if above_last n m.last_seq then record { last_seq = some n } else m)

advance_if : ℕ → Bool → Action SequenceManager Bool
advance_if n false m = (ok false, m)
advance_if n true m = (ok true, record { last_seq = some n })

-- `SequenceManager.check_and_mark`
unfoldable pub check_and_mark_newer : ℤ → Action SequenceManager Bool
unfolding advance_if is_newer
check_and_mark_newer seq = do n ← lift (validate_seq seq); newer ← is_newer seq; advance_if n newer
