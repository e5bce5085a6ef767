-- ===== src/EagleTradeAdapter.antt =====
-- app/communications/eagle_trade_adapter.py: Eagle's entries and exits as trade intents.
mod Tests
pub mod Requests
use bitcoin_trading_strategy.Shared.{
  String, str_eq, Option, none, some, List, [], ◌∷◌, if◌then◌else◌,
}
use bitcoin_trading_strategy.Shared.Result.{Result, ok, err, value_error, ◌>>=◌}
use bitcoin_trading_strategy.Shared.Text.{strip, is_empty, upper, lower}
use bitcoin_trading_strategy.Protocol.{
  TradeIntent, buy_to_open, sell_to_open, buy_to_close, sell_to_close, intent_value, JsonValue,
  text, mapping, IncomingLifecycleEvent, payload_get,
}
use bitcoin_trading_strategy.SignalLifecycle.{
  SignalLifecycleState, long_open, short_open, closed, Guard, get_state,
}

abbrev supported_eagle_symbol : String
supported_eagle_symbol = "BTCUSDT"

pub data EagleTradeAdaptStatus : Type 0 where
  adapted ignored_symbol ignored_unknown_exit : EagleTradeAdaptStatus

pub record EagleTradeAdaptResult : Type 0 where
  pub status : EagleTradeAdaptStatus
  pub event : Option IncomingLifecycleEvent
  pub eagle_symbol : Option String

-- `payload[key] = value` of a dict.
unfoldable pub payload_set :
    String → JsonValue → List (String × JsonValue) → List (String × JsonValue)
payload_set key value [] = (key, value) ∷ []
payload_set key value ((name, old) ∷ rest) =
    let others = payload_set key value rest in
    if str_eq name key then (name, value) ∷ rest else (name, old) ∷ others

-- `_with_intent`
unfoldable pub with_intent : IncomingLifecycleEvent → TradeIntent → IncomingLifecycleEvent
with_intent event intent = record event {
  payload = payload_set "intent" (text (intent_value intent)) event.payload;
}

abbrev pub adaptation : IncomingLifecycleEvent → String → TradeIntent → EagleTradeAdaptResult
adaptation event symbol intent = record {
  status = adapted;
  event = some (with_intent event intent);
  eagle_symbol = some symbol;
}

-- A field of the signal, which must be a text that is not blank.
unfoldable pub signal_field : String → List (String × Option String) → Result String
signal_field name [] = err value_error
signal_field name ((key, value) ∷ rest) =
    let later = signal_field name rest in if str_eq key name then stripped value else later
  where
    stripped : Option String → Result String
    stripped none = err value_error
    stripped (some raw) = if is_empty (strip raw) then err value_error else ok (strip raw)

intent_of_direction : String → Result TradeIntent
intent_of_direction direction =
    if str_eq direction "long"
    then ok buy_to_open
    else if str_eq direction "short"
    then ok sell_to_open
    else err value_error

-- `_adapt_entry`, once the symbol is the supported one.
unfoldable pub adapt_direction :
    IncomingLifecycleEvent → List (String × Option String) → Result EagleTradeAdaptResult
unfolding intent_of_direction
adapt_direction event signal = do
  direction ← signal_field "direction" signal
  intent ← intent_of_direction (lower direction)
  ok (adaptation event supported_eagle_symbol intent)

adapt_symbol :
    IncomingLifecycleEvent → List (String × Option String) → String → Result EagleTradeAdaptResult
unfolding adapt_direction
adapt_symbol event signal symbol =
    if str_eq symbol supported_eagle_symbol
    then adapt_direction event signal
    else ok (record { status = ignored_symbol; event = none; eagle_symbol = some symbol })

adapt_signal : IncomingLifecycleEvent → Option JsonValue → Result EagleTradeAdaptResult
unfolding adapt_symbol
adapt_signal event (some (mapping signal)) = do
  symbol ← signal_field "symbol" signal
  adapt_symbol event signal (upper symbol)
adapt_signal event _ = err value_error

-- `_adapt_entry`
unfoldable pub adapt_entry : IncomingLifecycleEvent → Result EagleTradeAdaptResult
unfolding adapt_signal
adapt_entry event = adapt_signal event (payload_get "signal" event.payload)

-- What `_adapt_exit` makes of the stored state.
unfoldable pub exit_for :
    IncomingLifecycleEvent → Option SignalLifecycleState → EagleTradeAdaptResult
exit_for event (some long_open) = adaptation event supported_eagle_symbol sell_to_close
exit_for event (some short_open) = adaptation event supported_eagle_symbol buy_to_close
exit_for event _ = record { status = ignored_unknown_exit; event = none; eagle_symbol = none }

-- `_adapt_exit`, which reads the guard's database and does not change it.
unfoldable pub adapt_exit : IncomingLifecycleEvent → Guard → Result EagleTradeAdaptResult
unfolding exit_for
adapt_exit event g = do state ← (get_state event.signal_id g).0; ok (exit_for event state)

-- `adapt`
unfoldable pub adapt : IncomingLifecycleEvent → Guard → Result EagleTradeAdaptResult
adapt event g =
    if str_eq event.message_type "fund.entry"
    then adapt_entry event
    else if str_eq event.message_type "fund.exit"
    then adapt_exit event g
    else err value_error
