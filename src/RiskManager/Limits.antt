-- ===== src/RiskManager/Limits.antt =====
-- Which requests app/risk_manager.py approves, and what it guarantees of the position after them.
use bitcoin_trading_strategy.Shared.{◌≡◌, Bool, true, false, ◌&&◌, not, arith, if◌then◌else◌}
use bitcoin_trading_strategy.Shared.Int.{ℤ, pos, ◌+ℤ◌, neg, abs, ltb_ℤ, leb_ℤ}
use bitcoin_trading_strategy.Shared.Text.{strip, upper}
use bitcoin_trading_strategy.Protocol.{TradeIntent, buy_to_close, sell_to_close, TradeRequest}
use bitcoin_trading_strategy.RiskManager.{
  RiskManager, is_approved, contains_symbol, is_close_intent, position_delta, validate_close_intent,
  evaluate_close, evaluate_open, evaluate,
}

-- A closing order of the size `quantity` against a position: it trades the other way, and is not
-- larger than the position.
abbrev pub closes_part : TradeIntent → ℤ → ℤ → Bool
closes_part sell_to_close quantity current =
    ltb_ℤ (pos 0) current && leb_ℤ quantity (pos (abs current))
closes_part buy_to_close quantity current =
    ltb_ℤ current (pos 0) && leb_ℤ quantity (pos (abs current))
closes_part _ quantity current = false

-- The gates that stop an opening order, whatever its size.
abbrev pub gates_open : RiskManager → Bool
gates_open m = not m.kill_switch.active && not m.daily_loss_guard.tripped && not m.controls.paused

abbrev pub projected : TradeRequest → ℤ → ℤ
projected request current = current +ℤ position_delta request.intent request.quantity

-- What the risk manager promises to approve.
abbrev pub permitted : RiskManager → TradeRequest → ℤ → Bool
permitted m request current =
    contains_symbol (upper (strip request.symbol)) m.allowed_symbols
    && ltb_ℤ (pos 0) request.quantity
    && (if is_close_intent request.intent
        then closes_part request.intent request.quantity current
        else gates_open m
          && leb_ℤ request.quantity m.max_order_quantity
          && leb_ℤ (pos (abs (projected request current))) m.max_absolute_position)

-- evaluate approves a request if and only if its symbol is allowed, its quantity is positive, and it
-- either closes at most the whole position by trading the other way, or is an opening while the kill
-- switch is off, the daily loss guard is not tripped and trading is not paused, with a quantity and a
-- resulting absolute position within the limits.
pub evaluate-permitted :
    (m : RiskManager) (request : TradeRequest) (current : ℤ)
    → is_approved (evaluate m request current) ≡ permitted m request current
unfolding evaluate evaluate_close evaluate_open validate_close_intent position_delta ◌+ℤ◌ neg
evaluate-permitted m request current = ground arith

-- An approved closing moves the position towards flat by exactly its quantity and not beyond: the
-- absolute position falls by the quantity, and does not change its sign.
pub approved_close_reduces :
    (m : RiskManager) (request : TradeRequest) (current : ℤ)
    → is_close_intent request.intent ≡ true
    → is_approved (evaluate m request current) ≡ true
    → (pos (abs (projected request current)) +ℤ request.quantity ≡ pos (abs current))
      × ((ltb_ℤ (pos 0) current && ltb_ℤ (projected request current) (pos 0)) ≡ false)
      × ((ltb_ℤ current (pos 0) && ltb_ℤ (pos 0) (projected request current)) ≡ false)
unfolding evaluate evaluate_close evaluate_open validate_close_intent position_delta ◌+ℤ◌ neg
approved_close_reduces m request current c a = (ground arith, ground arith, ground arith)

-- The decision about a closing is the same whatever the kill switch, the daily loss guard, the
-- trading controls and the limits are, so long as the allowed symbols are the same.
pub close_ignores_gates :
    (m n : RiskManager) (request : TradeRequest) (current : ℤ)
    → m.allowed_symbols ≡ n.allowed_symbols
    → is_close_intent request.intent ≡ true
    → evaluate m request current ≡ evaluate n request current
unfolding evaluate
close_ignores_gates m n request current s c = ground (arith, s, c)
