-- ===== src/DuplicateOrderGuard/Tests.antt =====
-- The guard of app/duplicate_order_guard.py on two requests with one event.
use bitcoin_trading_strategy.Shared.{String, ◌≡◌, refl, true}
use bitcoin_trading_strategy.Shared.Int.{pos}
use bitcoin_trading_strategy.Shared.Decimal.{of_int}
use bitcoin_trading_strategy.Shared.Result.{ok}
use bitcoin_trading_strategy.Shared.Table.{find}
use bitcoin_trading_strategy.Shared.Text.{validate_identifier, strip, is_space}
use bitcoin_trading_strategy.Protocol.{TradeRequest, buy_to_open, staging}
use bitcoin_trading_strategy.DuplicateOrderGuard.{
  DuplicateOrderGuard, reserved, duplicate, empty, reserve, release,
}
use bitcoin_trading_strategy.DuplicateOrderGuard.Cycle.{reserve_once}

abbrev request : String → String → TradeRequest
request event_id signal_id = record {
  event_id = event_id;
  signal_id = signal_id;
  timestamp = 0;
  environment = staging;
  intent = buy_to_open;
  symbol = "MBT";
  quantity = pos 2;
  stop_loss_points = of_int (pos 500);
}

abbrev held : DuplicateOrderGuard
held = (reserve (request " e1" "s1") empty).1

reserve_once_example :
    ((reserve (request " e1" "s1") empty).0
      ≡ ok (record { status = reserved; event_id = "e1"; signal_id = "s1" }))
    × (reserve (request "e1" "s2") held
        ≡ (ok (record { status = duplicate; event_id = "e1"; signal_id = "s2" }), held))
    × ((release " e1" held).0 ≡ ok true)
    × ((reserve (request "e1" "s2") (release " e1" held).1).0
        ≡ ok (record { status = reserved; event_id = "e1"; signal_id = "s2" }))
unfolding validate_identifier strip is_space find
reserve_once_example =
    reserve_once (request " e1" "s1") (request "e1" "s2") "e1" "s1" "s2" empty refl refl refl refl
      refl
