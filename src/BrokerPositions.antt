-- ===== src/BrokerPositions.antt =====
-- app/broker_position.py, broker_position_adapter.py and broker_position_provider.py: the broker's
-- open positions, as the program compares them with Eagle's.
mod Tests
pub mod Raw
use bitcoin_trading_strategy.Shared.{◌++◌}
use bitcoin_trading_strategy.Shared.{
  ℕ, String, str_eq, ◌||◌, Option, none, some, List, [], ◌∷◌, if◌then◌else◌,
}
use bitcoin_trading_strategy.Shared.Int.{ℤ, pos, abs, ltb_ℤ, leb_ℤ, eqb_ℤ}
use bitcoin_trading_strategy.Shared.Result.{Result, ok, err, value_error, map_ok, ◌>>=◌}
use bitcoin_trading_strategy.Shared.Text.{validate_identifier, upper}

pub record RawBrokerPosition : Type 0 where
  pub symbol : String
  pub quantity : ℤ
  pub signal_id : Option String

pub record BrokerPosition : Type 0 where
  pub symbol : String
  pub side : String
  pub quantity : ℤ
  pub signal_id : Option String

-- `_validate_symbol`
unfoldable pub validate_position_symbol : String → Result String
validate_position_symbol symbol = map_ok upper (validate_identifier symbol)

-- `_validate_side`
unfoldable pub validate_side : String → Result String
validate_side side = do
  normalized ← map_ok upper (validate_identifier side)
  if str_eq normalized "LONG" || str_eq normalized "SHORT" then ok normalized else err value_error

-- `_validate_quantity`
unfoldable pub validate_open_quantity : ℤ → Result ℤ
validate_open_quantity quantity = if leb_ℤ quantity (pos 0) then err value_error else ok quantity

-- `_validate_signal_id`
unfoldable pub validate_signal_id : Option String → Result (Option String)
validate_signal_id none = ok none
validate_signal_id (some signal_id) = map_ok some (validate_identifier signal_id)

-- `BrokerPosition(…)`, whose `__post_init__` validates and normalises each field.
unfoldable pub new_position : String → String → ℤ → Option String → Result BrokerPosition
new_position symbol side quantity signal_id = do
  s ← validate_position_symbol symbol
  d ← validate_side side
  q ← validate_open_quantity quantity
  i ← validate_signal_id signal_id
  ok (record { symbol = s; side = d; quantity = q; signal_id = i })

-- The side that a signed quantity stands for.
abbrev pub side_of : ℤ → String
side_of quantity = if ltb_ℤ (pos 0) quantity then "LONG" else "SHORT"

-- No position for a flat one.
unfoldable pub open_position : RawBrokerPosition → Result (List BrokerPosition)
unfolding new_position
open_position raw =
    if eqb_ℤ raw.quantity (pos 0)
    then ok []
    else map_ok (λ p. p ∷ [])
        (new_position raw.symbol (side_of raw.quantity) (pos (abs raw.quantity)) raw.signal_id)

-- One turn of the loop of `adapt`.
unfoldable pub adapt_one : RawBrokerPosition → Result (List BrokerPosition)
unfolding open_position
adapt_one raw = do symbol ← validate_identifier raw.symbol; open_position raw

-- `BrokerPositionAdapter.adapt`, and `AdapterBrokerPositionProvider.get_positions` on what its source
-- returned.
unfoldable pub adapt : List RawBrokerPosition → Result (List BrokerPosition)
adapt [] = ok []
adapt (raw ∷ raws) = do p ← adapt_one raw; rest ← adapt raws; ok (p ++ rest)
