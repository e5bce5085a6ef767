-- ===== src/TradingControls/Tests.antt =====
-- The settings of app/trading_controls.py on concrete changes.
use bitcoin_trading_strategy.Shared.{◌≡◌, ◌⊎◌, true, none, some}
use bitcoin_trading_strategy.Shared.Int.{pos}
use bitcoin_trading_strategy.Shared.Decimal.{of_int, validate_positive_decimal}
use bitcoin_trading_strategy.Shared.Result.{Error, ok, err}
use bitcoin_trading_strategy.TradingControls.{
  TradingControls, IsSetting, validate_symbol, validate_quantity, update, update_all_or_nothing,
}

abbrev controls : TradingControls
controls = record {
  paused = true;
  symbol = "MBT";
  quantity = pos 1;
  stop_loss_points = of_int (pos 500);
}

-- The new symbol is valid, the new quantity is not.
update_all_or_nothing_example :
    ((x : Error) × (update (some "es") (some (pos 0)) none controls ≡ (err x, controls)))
    ⊎ ((new : TradingControls) × (update (some "es") (some (pos 0)) none controls ≡ (ok tt, new))
        × IsSetting validate_symbol controls.symbol (some "es") new.symbol
        × IsSetting validate_quantity controls.quantity (some (pos 0)) new.quantity
        × IsSetting validate_positive_decimal controls.stop_loss_points none new.stop_loss_points
        × (new.paused ≡ controls.paused))
update_all_or_nothing_example = update_all_or_nothing (some "es") (some (pos 0)) none controls
