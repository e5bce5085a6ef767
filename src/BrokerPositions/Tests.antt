-- ===== src/BrokerPositions/Tests.antt =====
-- The adapter of app/broker_position_adapter.py on concrete positions.
use bitcoin_trading_strategy.Shared.{◌≡◌, refl, none, some, List, [], ◌∷◌, map, filter}
use bitcoin_trading_strategy.Shared.Int.{pos, negsuc}
use bitcoin_trading_strategy.Shared.Result.{ok}
use bitcoin_trading_strategy.Shared.Text.{validate_identifier, strip, is_space, upper}
use bitcoin_trading_strategy.BrokerPositions.{
  RawBrokerPosition, BrokerPosition, validate_position_symbol, validate_side,
  validate_open_quantity, validate_signal_id, new_position, open_position, adapt_one, adapt,
}
use bitcoin_trading_strategy.BrokerPositions.Raw.{raw_of, normal_raw, is_open, raw_of-adapt}

abbrev raws : List RawBrokerPosition
raws =
    record { symbol = " mbtq6"; quantity = negsuc 1; signal_id = none }
    ∷ record { symbol = "ES"; quantity = pos 0; signal_id = none }
    ∷ record { symbol = "MBT"; quantity = pos 3; signal_id = some "s1 " }
    ∷ []

abbrev adapted : List BrokerPosition
adapted =
    record { symbol = "MBTQ6"; side = "SHORT"; quantity = pos 2; signal_id = none }
    ∷ record { symbol = "MBT"; side = "LONG"; quantity = pos 3; signal_id = some "s1" }
    ∷ []

adapt_runs : adapt raws ≡ ok adapted
unfolding adapt adapt_one open_position new_position validate_position_symbol validate_side
    validate_open_quantity validate_signal_id validate_identifier strip is_space upper
adapt_runs = refl

raw_of-adapt_example : map raw_of adapted ≡ map normal_raw (filter is_open raws)
raw_of-adapt_example = raw_of-adapt raws adapted adapt_runs
