-- ===== src/Protocol.antt =====
-- The data that the components exchange: app/communications/protocol.py, trade_request.py and
-- incoming_event.py (the validated event object), and TradingSettingsSnapshot of
-- app/trading_controls.py.
use bitcoin_trading_strategy.Shared.{
  ℕ, String, str_eq, Option, none, some, List, [], ◌∷◌, if◌then◌else◌,
}
use bitcoin_trading_strategy.Shared.Decimal.{Finite}
use bitcoin_trading_strategy.Shared.Int.{ℤ}
use bitcoin_trading_strategy.Shared.Result.{Result, ok, err, value_error, ◌>>=◌}

pub data TradeIntent : Type 0 where
  buy_to_open sell_to_open buy_to_close sell_to_close : TradeIntent

-- `TradeIntent.value`
unfoldable pub intent_value : TradeIntent → String
intent_value buy_to_open = "BUY_TO_OPEN"
intent_value sell_to_open = "SELL_TO_OPEN"
intent_value buy_to_close = "BUY_TO_CLOSE"
intent_value sell_to_close = "SELL_TO_CLOSE"

-- `TradeIntent(text)`: the member with that value, or `ValueError`.
unfoldable pub intent_of_value : String → Result TradeIntent
intent_of_value text =
    if str_eq text "BUY_TO_OPEN"
    then ok buy_to_open
    else if str_eq text "SELL_TO_OPEN"
    then ok sell_to_open
    else if str_eq text "BUY_TO_CLOSE"
    then ok buy_to_close
    else if str_eq text "SELL_TO_CLOSE"
    then ok sell_to_close
    else err value_error

pub data Environment : Type 0 where
  staging live : Environment

-- A decoded JSON value, as far as the program looks at it: of an object, the fields that are texts.
pub data JsonValue : Type 0 where
  text : String → JsonValue
  mapping : List (String × Option String) → JsonValue
  other : JsonValue

pub record IncomingLifecycleEvent : Type 0 where
  pub message_type : String
  pub seq : ℤ
  pub event_id : String
  pub signal_id : String
  pub timestamp : ℕ
  pub environment : Environment
  pub payload : List (String × JsonValue)

-- `payload.get(key)`
unfoldable pub payload_get : String → List (String × JsonValue) → Option JsonValue
payload_get key [] = none
payload_get key ((name, value) ∷ rest) =
    if str_eq name key then some value else payload_get key rest

pub record TradingSettingsSnapshot : Type 0 where
  pub symbol : String
  pub quantity : ℤ
  pub stop_loss_points : Finite

pub record TradeRequest : Type 0 where
  pub event_id : String
  pub signal_id : String
  pub timestamp : ℕ
  pub environment : Environment
  pub intent : TradeIntent
  pub symbol : String
  pub quantity : ℤ
  pub stop_loss_points : Finite

unfoldable pub request_with_intent :
    IncomingLifecycleEvent → TradingSettingsSnapshot → TradeIntent → TradeRequest
request_with_intent event settings intent = record {
  event_id = event.event_id;
  signal_id = event.signal_id;
  timestamp = event.timestamp;
  environment = event.environment;
  intent = intent;
  symbol = settings.symbol;
  quantity = settings.quantity;
  stop_loss_points = settings.stop_loss_points;
}

unfoldable pub raw_intent_of : Option JsonValue → Result String
raw_intent_of none = err value_error
raw_intent_of (some other) = err value_error
raw_intent_of (some (mapping _)) = err value_error
raw_intent_of (some (text raw)) = ok raw

-- `TradeRequest.from_event`
unfoldable pub from_event : IncomingLifecycleEvent → TradingSettingsSnapshot → Result TradeRequest
unfolding request_with_intent raw_intent_of
from_event event settings = do
  raw_intent ← raw_intent_of (payload_get "intent" event.payload)
  intent ← intent_of_value raw_intent
  ok (request_with_intent event settings intent)
