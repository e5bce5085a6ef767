-- ===== src/DuplicateOrderGuard.antt =====
-- app/duplicate_order_guard.py: the in-memory set of event identifiers reserved for submission.
mod Tests
pub mod Cycle
use bitcoin_trading_strategy.Shared.{
  ℕ, String, Bool, true, false, Option, none, some, List, [], ◌∷◌, ◌++◌, map, length, is_some,
}
use bitcoin_trading_strategy.Shared.Action.{Action, pure, lift, gets, modify, ◌>>=◌, ◌>>◌}
use bitcoin_trading_strategy.Shared.Sort.{sort_by, text_leb}
use bitcoin_trading_strategy.Shared.Table.{find, delete}
use bitcoin_trading_strategy.Shared.Text.{validate_identifier}
use bitcoin_trading_strategy.Protocol.{TradeRequest}

pub data DuplicateOrderStatus : Type 0 where
  reserved duplicate : DuplicateOrderStatus

pub record DuplicateOrderDecision : Type 0 where
  pub status : DuplicateOrderStatus
  pub event_id : String
  pub signal_id : String

-- `DuplicateOrderDecision.allowed`
abbrev pub allowed : DuplicateOrderDecision → Bool
allowed d = elim d.status [ reserved ↦ true | duplicate ↦ false ]

pub record DuplicateOrderSnapshot : Type 0 where
  pub reserved_event_ids : List String
  pub reservation_count : ℕ

-- One entry of the dict `_reservations`, from an event to its signal.
pub record Reservation : Type 0 where
  pub event_id : String
  pub signal_id : String

pub record DuplicateOrderGuard : Type 0 where
  pub reservations : List Reservation

abbrev pub reservation_key : Reservation → String
reservation_key r = r.event_id

-- A new guard.
abbrev pub empty : DuplicateOrderGuard
empty = record { reservations = [] }

settle_reservation :
    String → String → Option Reservation → Action DuplicateOrderGuard DuplicateOrderDecision
settle_reservation event_id signal_id (some _) =
    pure (record { status = duplicate; event_id = event_id; signal_id = signal_id })
settle_reservation event_id signal_id none = do
  modify (λ g. record {
    reservations = g.reservations ++ record { event_id = event_id; signal_id = signal_id } ∷ [];
  })
  pure (record { status = reserved; event_id = event_id; signal_id = signal_id })

-- `reserve`
unfoldable pub reserve : TradeRequest → Action DuplicateOrderGuard DuplicateOrderDecision
unfolding settle_reservation
reserve request = do
  event_id ← lift (validate_identifier request.event_id)
  signal_id ← lift (validate_identifier request.signal_id)
  existing ← gets (λ g. find reservation_key event_id g.reservations)
  settle_reservation event_id signal_id existing

-- `contains`
unfoldable pub contains : String → Action DuplicateOrderGuard Bool
contains event_id = do
  key ← lift (validate_identifier event_id)
  gets (λ g. is_some (find reservation_key key g.reservations))

release_known : String → Bool → Action DuplicateOrderGuard Bool
release_known key false = pure false
release_known key true = do
  modify (λ g. record { reservations = delete reservation_key key g.reservations })
  pure true

-- `release`
unfoldable pub release : String → Action DuplicateOrderGuard Bool
unfolding release_known
release event_id = do
  key ← lift (validate_identifier event_id)
  known ← gets (λ g. is_some (find reservation_key key g.reservations))
  release_known key known

-- `clear`
unfoldable pub clear : Action DuplicateOrderGuard Unit
clear = modify (λ g. empty)

-- `snapshot`
unfoldable pub snapshot : DuplicateOrderGuard → DuplicateOrderSnapshot
snapshot g =
    let ids = sort_by text_leb (map reservation_key g.reservations) in
    record { reserved_event_ids = ids; reservation_count = length ids }
