-- ===== src/IbBrokerClient.antt =====
-- app/ib_broker_client.py and ib_position_transport.py: a snapshot of the broker's positions, put
-- together from its position callbacks. A `Contract` is the attributes that the code reads.
mod Tests
pub mod Snapshot
use Prim.Native.Nat.{◌/◌, ◌%◌}
use bitcoin_trading_strategy.Shared.{
  ℕ, String, Bool, true, false, ◌&&◌, Option, none, some, List, [], ◌∷◌, ◌++◌, ◌^◌, ◌==◌, not,
  if◌then◌else◌,
}
use bitcoin_trading_strategy.Shared.Int.{ℤ, pos, pos_part, neg_part, sub_ℕ, eqb_ℤ}
use bitcoin_trading_strategy.Shared.Decimal.{Decimal, finite, Finite}
use bitcoin_trading_strategy.Shared.Result.{Result, ok, err, value_error, runtime_error}
use bitcoin_trading_strategy.Shared.Text.{validate_identifier, strip, is_empty}
use bitcoin_trading_strategy.Shared.Action.{
  Action, pure, lift, reads, raise_if, modify, gets, ◌>>=◌, ◌>>◌,
}
use bitcoin_trading_strategy.BrokerPositions.{RawBrokerPosition}

-- The fields that the client reads; the quantity is what `Decimal(str(position))` reads.
pub record IbPositionRecord : Type 0 where
  pub account : String
  pub symbol : String
  pub position : Option Decimal
  pub con_id : Option ℤ
  pub local_symbol : Option String
  pub trading_class : Option String
  pub last_trade_date : Option String

pub record IbBrokerClient : Type 0 where
  pub snapshot_in_progress : Bool
  pub snapshot_complete : Bool
  pub positions : List RawBrokerPosition

-- `__init__`
abbrev pub new_client : IbBrokerClient
new_client = record { snapshot_in_progress = false; snapshot_complete = false; positions = [] }

-- `begin_position_snapshot`
unfoldable pub begin_position_snapshot : Action IbBrokerClient (Unit {0})
begin_position_snapshot =
    modify (λ _. record { positions = []; snapshot_in_progress = true; snapshot_complete = false })

-- `_normalize_quantity`: a finite number equal to its integral value, as an integer.
unfoldable pub normalize_quantity : Option Decimal → Result ℤ
normalize_quantity (some (finite d)) =
    let unit = 10 ^ d.places in
    let p = pos_part d.coefficient in
    let n = neg_part d.coefficient in
    if p % unit == 0 && n % unit == 0 then ok (sub_ℕ (p / unit) (n / unit)) else err value_error
normalize_quantity _ = err value_error

root_symbol : String → Result String
root_symbol symbol = if is_empty (strip symbol) then err value_error else ok (strip symbol)

-- `_select_symbol`
unfoldable pub select_symbol : Option String → String → Result String
unfolding root_symbol
select_symbol none symbol = root_symbol symbol
select_symbol (some local) symbol =
    if is_empty (strip local) then root_symbol symbol else ok (strip local)

abbrev pub appended : RawBrokerPosition → IbBrokerClient → IbBrokerClient
appended raw c = record c { positions = c.positions ++ raw ∷ [] }

-- `receive_position` once the quantity is known.
unfoldable pub receive_quantity : IbPositionRecord → ℤ → Action IbBrokerClient (Unit {0})
receive_quantity position quantity = if eqb_ℤ quantity (pos 0) then pure tt else do
  symbol ← lift (select_symbol position.local_symbol position.symbol)
  modify (appended (record { symbol = symbol; quantity = quantity; signal_id = none }))

-- `receive_position`
unfoldable pub receive_position : IbPositionRecord → Action IbBrokerClient (Unit {0})
unfolding receive_quantity
receive_position position = do
  in_progress ← gets (λ c. c.snapshot_in_progress)
  raise_if (not in_progress) runtime_error
  quantity ← lift (normalize_quantity position.position)
  receive_quantity position quantity

-- `finish_position_snapshot`
unfoldable pub finish_position_snapshot : Action IbBrokerClient (Unit {0})
finish_position_snapshot = do
  in_progress ← gets (λ c. c.snapshot_in_progress)
  raise_if (not in_progress) runtime_error
  modify (λ c. record c { snapshot_in_progress = false; snapshot_complete = true })

-- `get_raw_positions`
unfoldable pub get_raw_positions : IbBrokerClient → Result (List RawBrokerPosition)
get_raw_positions c = if c.snapshot_complete then ok c.positions else err runtime_error

-- The attributes of a contract that a position callback reads, each absent or of its type.
pub record PositionContract : Type 0 where
  pub symbol : Option String
  pub con_id : Option ℤ
  pub local_symbol : Option String
  pub trading_class : Option String
  pub last_trade_date_or_contract_month : Option String

-- `_read_string`
unfoldable pub read_string : Option String → String
read_string none = ""
read_string (some value) = strip value

-- `_read_optional_string`
unfoldable pub read_optional_string : Option String → Option String
read_optional_string none = none
read_optional_string (some value) = if is_empty (strip value) then none else some (strip value)

-- `IBPositionTransport.position`
unfoldable pub position :
    String → PositionContract → Option Decimal → Action IbBrokerClient (Unit {0})
unfolding receive_position
position account contract quantity = do
  normalized ← lift (validate_identifier account)
  receive_position (record {
    account = normalized;
    symbol = read_string contract.symbol;
    position = quantity;
    con_id = contract.con_id;
    local_symbol = read_optional_string contract.local_symbol;
    trading_class = read_optional_string contract.trading_class;
    last_trade_date = read_optional_string contract.last_trade_date_or_contract_month;
  })
