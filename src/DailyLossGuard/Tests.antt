-- ===== src/DailyLossGuard/Tests.antt =====
-- The latch of app/daily_loss_guard.py on concrete numbers.
use bitcoin_trading_strategy.Shared.{◌≡◌, refl, false, none, some, List, [], ◌∷◌}
use bitcoin_trading_strategy.Shared.Int.{pos, negsuc, ◌+ℤ◌, neg}
use bitcoin_trading_strategy.Shared.Decimal.{
  Finite, finite, of_int, zero_dec, le_dec, neg_dec, add_dec, validate_positive_decimal,
  validate_finite_decimal,
}
use bitcoin_trading_strategy.DailyLossGuard.{
  new_guard, init, total_pnl, remaining_loss_capacity, evaluate_limit, update_realized_pnl,
  update_unrealized_pnl, update_pnl, reset_day,
}
use bitcoin_trading_strategy.DailyLossGuard.Latch.{
  Call, realized_call, unrealized_call, both_call, reset_call, after, run, untripped_above_limit,
}

abbrev limit : Finite
limit = of_int (pos 500)

-- Half a dollar above the limit; the last call raises.
abbrev calls : List Call
calls =
    realized_call (some (finite (of_int (negsuc 599))))
    ∷ reset_call
    ∷ both_call (some (finite (of_int (negsuc 399))))
        (some (finite (record { coefficient = negsuc 994; places = 1 })))
    ∷ unrealized_call none
    ∷ []

untripped_above_limit_example :
    let last = run calls (new_guard limit) in
    let total = add_dec last.realized_pnl last.unrealized_pnl in
    (le_dec total (neg_dec limit) ≡ false)
    × (remaining_loss_capacity last ≡ add_dec limit total)
    × (le_dec (remaining_loss_capacity last) zero_dec ≡ false)
unfolding init validate_positive_decimal run after update_realized_pnl update_unrealized_pnl
    update_pnl reset_day evaluate_limit total_pnl validate_finite_decimal le_dec add_dec neg_dec
    ◌+ℤ◌ neg
untripped_above_limit_example =
    untripped_above_limit (some (finite limit)) (new_guard limit) calls refl refl
