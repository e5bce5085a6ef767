-- ===== src/IbTradingReadiness/Tests.antt =====
-- The gate of app/ib_trading_readiness.py on concrete objects.
use bitcoin_trading_strategy.Shared.{◌≡◌, refl, true, false, none, some, []}
use bitcoin_trading_strategy.Shared.Int.{pos}
use bitcoin_trading_strategy.Shared.Decimal.{of_int}
use bitcoin_trading_strategy.Shared.Result.{ok}
use bitcoin_trading_strategy.KillSwitch.{new_switch}
use bitcoin_trading_strategy.IbTradingReadiness.{
  Gate, IbTradingReadinessSnapshot, IsOpenGate, ready, require_ready, evaluate, failures_of,
  order_id_ready, require_ready_opens,
}

abbrev gate : Gate
gate = record {
  api_ready = record { ready = true; next_valid_order_id = some 7 };
  order_id_allocator = record {
    initialized = true;
    next_order_id = some 7;
    highest_allocated_order_id = none;
    highest_observed_order_id = none;
  };
  broker_client = record { snapshot_in_progress = false; snapshot_complete = true; positions = [] };
  trading_controls = record {
    paused = false;
    symbol = "MBT";
    quantity = pos 1;
    stop_loss_points = of_int (pos 50);
  };
  kill_switch = new_switch;
}

abbrev open_snapshot : IbTradingReadinessSnapshot
open_snapshot = record {
  status = ready;
  ready = true;
  trading_paused = false;
  kill_switch_active = false;
  api_ready = true;
  order_id_ready = true;
  position_snapshot_complete = true;
  positions_reconciled = true;
  execution_state_clear = true;
  failures = [];
}

gate_opens : require_ready gate true true ≡ ok open_snapshot
unfolding require_ready evaluate failures_of order_id_ready
gate_opens = refl

require_ready_opens_example : IsOpenGate gate true true
require_ready_opens_example = require_ready_opens gate true true open_snapshot gate_opens
