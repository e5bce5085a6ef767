-- ===== src/IbOrderFactory.antt =====
-- app/ib_order_factory.py: the contract and the order that a trade request stands for. `Contract`
-- and `Order` are the attributes that the code sets on the objects of the package `ibapi`.
use Prim.Native.Char.{code}
use bitcoin_trading_strategy.Shared.{
  ℕ, suc, String, str_eq, Bool, true, ◌&&◌, ◌||◌, Option, none, some, leb, ◌==◌, if◌then◌else◌,
}
use bitcoin_trading_strategy.Shared.Decimal.{Decimal, Finite, validate_positive_decimal}
use bitcoin_trading_strategy.Shared.Int.{ℤ, pos, leb_ℤ}
use bitcoin_trading_strategy.Shared.Result.{
  Result, ok, err, value_error, runtime_error, map_ok, ◌>>=◌,
}
use bitcoin_trading_strategy.Shared.Text.{validate_identifier, upper}
use bitcoin_trading_strategy.Protocol.{
  TradeIntent, buy_to_open, sell_to_open, buy_to_close, sell_to_close, TradeRequest,
}

pub record Contract : Type 0 where
  pub symbol : String
  pub sec_type : String
  pub exchange : String
  pub currency : String
  pub last_trade_date_or_contract_month : String
  pub trading_class : String

-- `lmtPrice` is the limit price before its conversion to a float.
pub record Order : Type 0 where
  pub action : String
  pub total_quantity : ℤ
  pub order_type : String
  pub tif : String
  pub transmit : Bool
  pub lmt_price : Option Finite

pub record IbOrderPackage : Type 0 where
  pub event_id : String
  pub signal_id : String
  pub contract : Contract
  pub order : Order

pub record IbOrderFactory : Type 0 where
  pub exchange : String
  pub currency : String
  pub trading_class : String
  pub order_type : String
  pub time_in_force : String
  pub transmit : Bool
  pub limit_price : Option Finite

-- `_validate_limit_price_configuration`; the argument is absent, or what `Decimal` reads in it.
unfoldable pub validate_limit_price_configuration :
    String → Option (Option Decimal) → Result (Option Finite)
validate_limit_price_configuration order_type none =
    if str_eq order_type "LMT" then err value_error else ok none
validate_limit_price_configuration order_type (some price) =
    if str_eq order_type "LMT"
    then map_ok some (validate_positive_decimal price)
    else err value_error

-- `__init__`
unfoldable pub init :
    String
    → String
    → String
    → String
    → String
    → Bool
    → Option (Option Decimal)
    → Result IbOrderFactory
init exchange currency trading_class order_type time_in_force transmit limit_price = do
  e ← validate_identifier exchange
  c ← map_ok upper (validate_identifier currency)
  t ← map_ok upper (validate_identifier trading_class)
  o ← map_ok upper (validate_identifier order_type)
  f ← map_ok upper (validate_identifier time_in_force)
  p ← validate_limit_price_configuration o limit_price
  ok (record {
    exchange = e;
    currency = c;
    trading_class = t;
    order_type = o;
    time_in_force = f;
    transmit = transmit;
    limit_price = p;
  })

-- `str.isdigit` on ASCII text that is not empty, and `len`.
all_digits : String → Bool
all_digits String.[] = true
all_digits (String.◌∷◌ c s) = leb b'0' (code c) && leb (code c) b'9' && all_digits s

char_count : String → ℕ
char_count String.[] = 0
char_count (String.◌∷◌ c s) = suc (char_count s)

-- `_validate_contract_month`
unfoldable pub validate_contract_month : String → Result String
unfolding all_digits char_count
validate_contract_month contract_month = do
  normalized ← validate_identifier contract_month
  let sized = char_count normalized == 6 || char_count normalized == 8
  if all_digits normalized && sized then ok normalized else err value_error

-- `_action_for_intent`
unfoldable pub action_for_intent : TradeIntent → String
action_for_intent buy_to_open = "BUY"
action_for_intent buy_to_close = "BUY"
action_for_intent sell_to_open = "SELL"
action_for_intent sell_to_close = "SELL"

module _ (factory : IbOrderFactory) where
  -- `_create_contract`
  unfoldable pub create_contract : TradeRequest → String → Result Contract
  create_contract request contract_month = do
    symbol ← map_ok upper (validate_identifier request.symbol)
    ok (record {
      symbol = symbol;
      sec_type = "FUT";
      exchange = factory.exchange;
      currency = factory.currency;
      last_trade_date_or_contract_month = contract_month;
      trading_class = factory.trading_class;
    })

  -- `lmtPrice` is set on a limit order, and a limit order with no price is an internal error.
  order_price : Option Finite → Result (Option Finite)
  order_price none = if str_eq factory.order_type "LMT" then err runtime_error else ok none
  order_price (some p) = if str_eq factory.order_type "LMT" then ok (some p) else ok none

  -- `_create_order`
  unfoldable pub create_order : TradeRequest → Result Order
  unfolding order_price
  create_order request = if leb_ℤ request.quantity (pos 0) then err value_error else do
    price ← order_price factory.limit_price
    ok (record {
      action = action_for_intent request.intent;
      total_quantity = request.quantity;
      order_type = factory.order_type;
      tif = factory.time_in_force;
      transmit = factory.transmit;
      lmt_price = price;
    })

  -- `create`
  unfoldable pub create : TradeRequest → String → Result IbOrderPackage
  create request contract_month = do
    month ← validate_contract_month contract_month
    contract ← create_contract request month
    order ← create_order request
    ok (record {
      event_id = request.event_id;
      signal_id = request.signal_id;
      contract = contract;
      order = order;
    })
