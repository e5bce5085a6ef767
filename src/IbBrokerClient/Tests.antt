-- ===== src/IbBrokerClient/Tests.antt =====
-- A snapshot of app/ib_broker_client.py, from concrete callbacks.
use bitcoin_trading_strategy.Shared.{◌≡◌, refl, none, some, List, [], ◌∷◌}
use bitcoin_trading_strategy.Shared.Int.{pos, negsuc}
use bitcoin_trading_strategy.Shared.Result.{ok, err, value_error, runtime_error}
use bitcoin_trading_strategy.Shared.Decimal.{finite, of_int}
use bitcoin_trading_strategy.IbBrokerClient.{
  PositionContract, new_client, begin_position_snapshot, finish_position_snapshot,
  get_raw_positions, normalize_quantity,
}
use bitcoin_trading_strategy.IbBrokerClient.Snapshot.{Callback, heard, reported, snapshot-reported}

abbrev contract : PositionContract
contract = record {
  symbol = some "MBT";
  con_id = none;
  local_symbol = some " MBTQ6";
  trading_class = none;
  last_trade_date_or_contract_month = none;
}

-- One position, one callback with a fraction of a contract, which is not valid, and a flat position.
abbrev callbacks : List Callback
callbacks =
    record { account = "DU1"; contract = contract; quantity = some (finite (of_int (negsuc 1))) }
    ∷ record {
      account = "DU1";
      contract = contract;
      quantity = some (finite (record { coefficient = pos 15; places = 1 }));
    }
    ∷ record { account = "DU1"; contract = contract; quantity = some (finite (of_int (pos 0))) }
    ∷ []

half_runs :
    normalize_quantity (some (finite (record { coefficient = pos 15; places = 1 })))
    ≡ err value_error
unfolding normalize_quantity
half_runs = refl

whole_runs :
    normalize_quantity (some (finite (record { coefficient = pos 20; places = 1 }))) ≡ ok (pos 2)
unfolding normalize_quantity
whole_runs = refl

snapshot-reported_example :
    let s' = heard callbacks (begin_position_snapshot new_client).1 in
    (get_raw_positions s' ≡ err runtime_error)
    × ((finish_position_snapshot s').0 ≡ ok tt)
    × (get_raw_positions (finish_position_snapshot s').1 ≡ ok (reported callbacks))
snapshot-reported_example = snapshot-reported new_client callbacks
