-- ===== src/EventStore.antt =====
-- app/event_store.py: the identifiers of the events processed and the last sequence number.
mod Tests
pub mod Order
use bitcoin_trading_strategy.Shared.{
  ℕ, String, str_eq, Bool, true, false, ◌||◌, Option, none, some, List, [], ◌∷◌, ◌++◌, leb, not,
  if◌then◌else◌,
}
use bitcoin_trading_strategy.Shared.Int.{ℤ, pos, negsuc}
use bitcoin_trading_strategy.Shared.Result.{Result, ok, err, value_error, map_ok}
use bitcoin_trading_strategy.Shared.Action.{Action, pure, lift, gets, modify, ◌>>=◌, ◌>>◌}
use bitcoin_trading_strategy.Shared.Text.{validate_identifier}

pub data EventProcessingResult : Type 0 where
  accepted duplicate_event out_of_sequence : EventProcessingResult

-- The table `processed_events`, and the one row of `sequence_state` where there is one.
pub record EventStore : Type 0 where
  pub processed_events : List String
  pub last_seq : Option ℕ

-- `_initialize_database`, on a new file.
abbrev pub empty : EventStore
empty = record { processed_events = []; last_seq = none }

-- `_validate_event_id`: the text is used as it is, not stripped.
unfoldable pub validate_event_id : String → Result String
validate_event_id event_id = map_ok (λ _. event_id) (validate_identifier event_id)

-- `_validate_seq`
unfoldable pub validate_seq : ℤ → Result ℕ
validate_seq (pos n) = ok n
validate_seq (negsuc _) = err value_error

-- `SELECT 1 … WHERE event_id = ?`
unfoldable pub is_processed : String → List String → Bool
is_processed event_id [] = false
is_processed event_id (e ∷ rest) = str_eq e event_id || is_processed event_id rest

-- `has_processed_event`
unfoldable pub has_processed_event : String → Action EventStore Bool
has_processed_event event_id = do
  key ← lift (validate_event_id event_id)
  gets (λ s. is_processed key s.processed_events)

-- `INSERT OR IGNORE`
abbrev pub insert_or_ignore : String → EventStore → EventStore
insert_or_ignore key s =
    if is_processed key s.processed_events
    then s
    else record s { processed_events = s.processed_events ++ key ∷ [] }

-- `mark_event_processed`
unfoldable pub mark_event_processed : String → Action EventStore (Unit {0})
mark_event_processed event_id = do
  key ← lift (validate_event_id event_id)
  modify (insert_or_ignore key)

-- `check_and_mark_event`: whether the INSERT wrote a row.
unfoldable pub check_and_mark_event : String → Action EventStore Bool
check_and_mark_event event_id = do
  key ← lift (validate_event_id event_id)
  known ← gets (λ s. is_processed key s.processed_events)
  modify (insert_or_ignore key)
  pure (not known)

-- `get_last_seq`
abbrev pub get_last_seq : EventStore → Option ℕ
get_last_seq s = s.last_seq

-- Whether a sequence number is not above the stored one.
abbrev pub is_stale : ℕ → Option ℕ → Bool
is_stale seq none = false
is_stale seq (some last) = leb seq last

abbrev pub advance_seq : ℕ → EventStore → EventStore
advance_seq seq s = if is_stale seq s.last_seq then s else record s { last_seq = some seq }

-- `mark_seq_processed`
unfoldable pub mark_seq_processed : ℤ → Action EventStore (Unit {0})
mark_seq_processed seq = do n ← lift (validate_seq seq); modify (advance_seq n)

-- `check_and_mark_seq`
unfoldable pub check_and_mark_seq : ℤ → Action EventStore Bool
check_and_mark_seq seq = do
  n ← lift (validate_seq seq)
  stale ← gets (λ s. is_stale n s.last_seq)
  modify (advance_seq n)
  pure (not stale)

-- The verdict on an event, in the order of the two SELECTs.
unfoldable pub verdict : String → ℕ → EventStore → EventProcessingResult
verdict key n s =
    if is_processed key s.processed_events
    then duplicate_event
    else if is_stale n s.last_seq
    then out_of_sequence
    else accepted

-- `check_event_with_seq`
unfoldable pub check_event_with_seq : String → ℤ → Action EventStore EventProcessingResult
unfolding verdict
check_event_with_seq event_id seq = do
  key ← lift (validate_event_id event_id)
  n ← lift (validate_seq seq)
  gets (verdict key n)

-- The two writes of `check_and_mark_event_with_seq`, or its early returns.
unfoldable pub mark_event_with_seq : String → ℕ → Action EventStore EventProcessingResult
mark_event_with_seq key n s =
    if is_processed key s.processed_events
    then (ok duplicate_event, s)
    else if is_stale n s.last_seq
    then (ok out_of_sequence, s)
    else (
      ok accepted,
      record { processed_events = s.processed_events ++ key ∷ []; last_seq = some n },
    )

-- `check_and_mark_event_with_seq`
unfoldable pub check_and_mark_event_with_seq : String → ℤ → Action EventStore EventProcessingResult
check_and_mark_event_with_seq event_id seq = do
  key ← lift (validate_event_id event_id)
  n ← lift (validate_seq seq)
  mark_event_with_seq key n
