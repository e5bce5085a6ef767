-- ===== src/RiskManager.antt =====
-- app/risk_manager.py: the checks of a trade request against the position, before execution.
mod Tests
pub mod Limits
use bitcoin_trading_strategy.Shared.{
  ℕ, String, str_eq, Bool, true, false, ◌||◌, Option, none, some, List, [], ◌∷◌, ◌++◌, ltb, leb,
  is_some, if◌then◌else◌,
}
use bitcoin_trading_strategy.Shared.Int.{ℤ, pos, ◌+ℤ◌, neg, abs, ltb_ℤ, leb_ℤ}
use bitcoin_trading_strategy.Shared.Decimal.{Finite}
use bitcoin_trading_strategy.Shared.Result.{Result, ok, err, value_error, map_ok, ◌>>=◌}
use bitcoin_trading_strategy.Shared.Text.{validate_identifier, strip, upper}
use bitcoin_trading_strategy.Protocol.{
  TradeIntent, buy_to_open, sell_to_open, buy_to_close, sell_to_close, TradeRequest,
}
use bitcoin_trading_strategy.TradingControls.{TradingControls}
use bitcoin_trading_strategy.KillSwitch.{KillSwitch}
use bitcoin_trading_strategy.DailyLossGuard.{DailyLossGuard, total_pnl}

pub data RiskDecisionStatus : Type 0 where
  approved rejected : RiskDecisionStatus

-- The branch of the code that gave the decision, with the values in its text.
pub data RiskReason : Type 0 where
  symbol_not_permitted : String → RiskReason
  quantity_not_positive : RiskReason
  close_requires_long close_requires_short close_would_go_short close_would_go_long : RiskReason
  close_passed : RiskReason
  kill_switch_active : Option String → RiskReason
  daily_loss_reached : Finite → Finite → RiskReason
  trading_paused : RiskReason
  quantity_exceeds : ℤ → ℤ → RiskReason
  position_exceeds : ℤ → ℤ → RiskReason
  open_passed : RiskReason

pub record RiskDecision : Type 0 where
  pub status : RiskDecisionStatus
  pub reason : RiskReason
  pub current_position : ℤ
  pub projected_position : ℤ

-- `RiskDecision.approved`
abbrev pub is_approved : RiskDecision → Bool
is_approved d = elim d.status [ approved ↦ true | rejected ↦ false ]

-- The controls, the switch and the guard are those of the moment of the call.
pub record RiskManager : Type 0 where
  pub controls : TradingControls
  pub kill_switch : KillSwitch
  pub daily_loss_guard : DailyLossGuard
  pub allowed_symbols : List String
  pub max_order_quantity : ℤ
  pub max_absolute_position : ℤ

-- `symbol in symbols`
unfoldable pub contains_symbol : String → List String → Bool
contains_symbol symbol [] = false
contains_symbol symbol (s ∷ rest) = str_eq s symbol || contains_symbol symbol rest

-- The loop over `allowed_symbols`, which keeps the first of equal symbols.
unfoldable pub normalize_symbols : List String → List String → Result (List String)
normalize_symbols seen [] = ok seen
normalize_symbols seen (symbol ∷ rest) = do
  normalized ← map_ok upper (validate_identifier symbol)
  normalize_symbols (if contains_symbol normalized seen then seen else seen ++ normalized ∷ []) rest

at_least_one : List String → Result (List String)
at_least_one [] = err value_error
at_least_one (s ∷ rest) = ok (s ∷ rest)

positive_limit : ℤ → Result ℤ
positive_limit n = if leb_ℤ n (pos 0) then err value_error else ok n

-- `__init__`
unfoldable pub init :
    TradingControls → KillSwitch → DailyLossGuard → List String → ℤ → ℤ → Result RiskManager
unfolding at_least_one positive_limit
init controls kill_switch daily_loss_guard symbols max_order_quantity max_absolute_position = do
  normalized ← normalize_symbols [] symbols
  allowed ← at_least_one normalized
  quantity ← positive_limit max_order_quantity
  position ← positive_limit max_absolute_position
  ok (record {
    controls = controls;
    kill_switch = kill_switch;
    daily_loss_guard = daily_loss_guard;
    allowed_symbols = allowed;
    max_order_quantity = quantity;
    max_absolute_position = position;
  })

-- `_is_close_intent`
abbrev pub is_close_intent : TradeIntent → Bool
is_close_intent buy_to_close = true
is_close_intent sell_to_close = true
is_close_intent _ = false

-- `_position_delta`
unfoldable pub position_delta : TradeIntent → ℤ → ℤ
position_delta buy_to_open quantity = quantity
position_delta buy_to_close quantity = quantity
position_delta sell_to_open quantity = neg quantity
position_delta sell_to_close quantity = neg quantity

-- `_validate_close_intent`
unfoldable pub validate_close_intent : TradeIntent → ℤ → ℤ → Option RiskReason
validate_close_intent sell_to_close current projected =
    if leb_ℤ current (pos 0)
    then some close_requires_long
    else if ltb_ℤ projected (pos 0)
    then some close_would_go_short
    else none
validate_close_intent buy_to_close current projected =
    if leb_ℤ (pos 0) current
    then some close_requires_short
    else if ltb_ℤ (pos 0) projected
    then some close_would_go_long
    else none
validate_close_intent _ current projected = none

abbrev pub decision : RiskDecisionStatus → RiskReason → ℤ → ℤ → RiskDecision
decision status reason current projected = record {
  status = status;
  reason = reason;
  current_position = current;
  projected_position = projected;
}

-- `_reject`
unfoldable pub reject : RiskReason → ℤ → RiskDecision
reject reason current = decision rejected reason current current

close_decision : Option RiskReason → ℤ → ℤ → RiskDecision
close_decision (some violation) current projected = decision rejected violation current projected
close_decision none current projected = decision approved close_passed current projected

-- `_evaluate_close`
unfoldable pub evaluate_close : TradeRequest → ℤ → ℤ → RiskDecision
unfolding close_decision
evaluate_close request current projected =
    close_decision (validate_close_intent request.intent current projected) current projected

-- `_evaluate_open`
unfoldable pub evaluate_open : RiskManager → TradeRequest → ℤ → ℤ → RiskDecision
unfolding reject
evaluate_open m request current projected =
    if m.kill_switch.active
    then reject (kill_switch_active m.kill_switch.reason) current
    else if m.daily_loss_guard.tripped
    then reject
        (daily_loss_reached (total_pnl m.daily_loss_guard) m.daily_loss_guard.max_daily_loss)
        current
    else if m.controls.paused
    then reject trading_paused current
    else if ltb_ℤ m.max_order_quantity request.quantity
    then reject (quantity_exceeds request.quantity m.max_order_quantity) current
    else if ltb_ℤ m.max_absolute_position (pos (abs projected))
    then decision rejected (position_exceeds projected m.max_absolute_position) current projected
    else decision approved open_passed current projected

-- `evaluate`
unfoldable pub evaluate : RiskManager → TradeRequest → ℤ → RiskDecision
unfolding reject
evaluate m request current =
    let symbol = upper (strip request.symbol) in
    let projected = current +ℤ position_delta request.intent request.quantity in
    if contains_symbol symbol m.allowed_symbols
    then (if leb_ℤ request.quantity (pos 0)
        then reject quantity_not_positive current
        else if is_close_intent request.intent
        then evaluate_close request current projected
        else evaluate_open m request current projected)
    else reject (symbol_not_permitted symbol) current
