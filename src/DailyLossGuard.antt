-- ===== src/DailyLossGuard.antt =====
-- app/daily_loss_guard.py: the latch that trips at the maximum daily loss.
mod Tests
pub mod Latch
use bitcoin_trading_strategy.Shared.{Bool, true, false, Option, if◌then◌else◌}
use bitcoin_trading_strategy.Shared.Decimal.{
  Decimal, Finite, zero_dec, add_dec, neg_dec, le_dec, validate_positive_decimal,
  validate_finite_decimal,
}
use bitcoin_trading_strategy.Shared.Result
use bitcoin_trading_strategy.Shared.Result.{Result, map_ok}
use bitcoin_trading_strategy.Shared.Action.{Action, lift, modify, ◌>>=◌, ◌>>◌}

pub record DailyLossGuard : Type 0 where
  pub max_daily_loss : Finite
  pub realized_pnl : Finite
  pub unrealized_pnl : Finite
  pub tripped : Bool

pub record DailyLossSnapshot : Type 0 where
  pub max_daily_loss : Finite
  pub realized_pnl : Finite
  pub unrealized_pnl : Finite
  pub total_pnl : Finite
  pub tripped : Bool

abbrev pub new_guard : Finite → DailyLossGuard
new_guard limit = record {
  max_daily_loss = limit;
  realized_pnl = zero_dec;
  unrealized_pnl = zero_dec;
  tripped = false;
}

-- `__init__`
unfoldable pub init : Option Decimal → Result DailyLossGuard
init max_daily_loss = map_ok new_guard (validate_positive_decimal max_daily_loss)

unfoldable pub total_pnl : DailyLossGuard → Finite
total_pnl g = add_dec g.realized_pnl g.unrealized_pnl

-- `remaining_loss_capacity`
unfoldable pub remaining_loss_capacity : DailyLossGuard → Finite
remaining_loss_capacity g =
    let remaining = add_dec g.max_daily_loss (total_pnl g) in
    if g.tripped then zero_dec else if le_dec remaining zero_dec then zero_dec else remaining

-- `_evaluate_limit`
unfoldable pub evaluate_limit : DailyLossGuard → DailyLossGuard
evaluate_limit g =
    if g.tripped
    then g
    else if le_dec (total_pnl g) (neg_dec g.max_daily_loss)
    then record g { tripped = true }
    else g

-- `update_realized_pnl`
unfoldable pub update_realized_pnl : Option Decimal → Action DailyLossGuard (Unit {0})
update_realized_pnl value = do
  realized ← lift (validate_finite_decimal value)
  modify (λ g. evaluate_limit (record g { realized_pnl = realized }))

-- `update_unrealized_pnl`
unfoldable pub update_unrealized_pnl : Option Decimal → Action DailyLossGuard (Unit {0})
update_unrealized_pnl value = do
  unrealized ← lift (validate_finite_decimal value)
  modify (λ g. evaluate_limit (record g { unrealized_pnl = unrealized }))

-- `update_pnl`
unfoldable pub update_pnl : Option Decimal → Option Decimal → Action DailyLossGuard (Unit {0})
update_pnl realized_pnl unrealized_pnl = do
  realized ← lift (validate_finite_decimal realized_pnl)
  unrealized ← lift (validate_finite_decimal unrealized_pnl)
  modify (λ g. evaluate_limit (record g { realized_pnl = realized; unrealized_pnl = unrealized }))

-- `reset_day`
unfoldable pub reset_day : Action DailyLossGuard (Unit {0})
reset_day = modify (λ g. new_guard g.max_daily_loss)

-- `snapshot`
unfoldable pub snapshot : DailyLossGuard → DailyLossSnapshot
snapshot g = record {
  max_daily_loss = g.max_daily_loss;
  realized_pnl = g.realized_pnl;
  unrealized_pnl = g.unrealized_pnl;
  total_pnl = total_pnl g;
  tripped = g.tripped;
}
