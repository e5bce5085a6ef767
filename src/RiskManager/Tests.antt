-- ===== src/RiskManager/Tests.antt =====
-- The checks of app/risk_manager.py on concrete requests.
use bitcoin_trading_strategy.Shared.{◌≡◌, refl, true, false, ◌&&◌, some, [], ◌∷◌}
use bitcoin_trading_strategy.Shared.Int.{pos, negsuc, ◌+ℤ◌, abs, ltb_ℤ}
use bitcoin_trading_strategy.Shared.Decimal.{of_int}
use bitcoin_trading_strategy.Shared.Text.{strip, upper, is_space}
use bitcoin_trading_strategy.Protocol.{
  TradeIntent, buy_to_open, buy_to_close, staging, TradeRequest,
}
use bitcoin_trading_strategy.KillSwitch.{new_switch}
use bitcoin_trading_strategy.DailyLossGuard.{new_guard}
use bitcoin_trading_strategy.RiskManager.{
  RiskManager, is_approved, contains_symbol, position_delta, evaluate, evaluate_close,
  evaluate_open, validate_close_intent,
}
use bitcoin_trading_strategy.RiskManager.Limits.{
  permitted, projected, evaluate-permitted, approved_close_reduces,
}

abbrev request : TradeIntent → TradeRequest
request intent = record {
  event_id = "e1";
  signal_id = "s1";
  timestamp = 0;
  environment = staging;
  intent = intent;
  symbol = " mbt";
  quantity = pos 2;
  stop_loss_points = of_int (pos 500);
}

abbrev open_manager : RiskManager
open_manager = record {
  controls = record {
    paused = false;
    symbol = "MBT";
    quantity = pos 1;
    stop_loss_points = of_int (pos 500);
  };
  kill_switch = new_switch;
  daily_loss_guard = new_guard (of_int (pos 500));
  allowed_symbols = "MBT" ∷ [];
  max_order_quantity = pos 50;
  max_absolute_position = pos 50;
}

-- Every gate is shut.
abbrev shut_manager : RiskManager
shut_manager = record open_manager {
  controls = record {
    paused = true;
    symbol = "MBT";
    quantity = pos 1;
    stop_loss_points = of_int (pos 500);
  };
  kill_switch = record { active = true; reason = some "stop"; activated_at = some 1 };
  max_order_quantity = pos 1;
}

evaluate-permitted_example :
    is_approved (evaluate open_manager (request buy_to_open) (pos 48))
    ≡ permitted open_manager (request buy_to_open) (pos 48)
evaluate-permitted_example = evaluate-permitted open_manager (request buy_to_open) (pos 48)

open_approved : is_approved (evaluate open_manager (request buy_to_open) (pos 48)) ≡ true
unfolding evaluate evaluate_open contains_symbol strip upper is_space position_delta ◌+ℤ◌
open_approved = refl

open_too_large : is_approved (evaluate open_manager (request buy_to_open) (pos 49)) ≡ false
unfolding evaluate evaluate_open contains_symbol strip upper is_space position_delta ◌+ℤ◌
open_too_large = refl

approved_close_reduces_example :
    (pos (abs (projected (request buy_to_close) (negsuc 4))) +ℤ pos 2 ≡ pos 5)
    × ((ltb_ℤ (pos 0) (negsuc 4) && ltb_ℤ (projected (request buy_to_close) (negsuc 4)) (pos 0))
        ≡ false)
    × ((ltb_ℤ (negsuc 4) (pos 0) && ltb_ℤ (pos 0) (projected (request buy_to_close) (negsuc 4)))
        ≡ false)
unfolding evaluate evaluate_close validate_close_intent contains_symbol strip upper is_space
    position_delta ◌+ℤ◌
approved_close_reduces_example =
    approved_close_reduces shut_manager (request buy_to_close) (negsuc 4) refl refl
