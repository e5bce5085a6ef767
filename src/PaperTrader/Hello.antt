-- ===== src/PaperTrader/Hello.antt =====
-- scripts/run_real_eagle_ib_paper_trader.py: the open positions that Eagle's hello reports, against
-- the program's own.
pub mod Agreement
use bitcoin_trading_strategy.Shared.{
  String, str_eq, Bool, true, false, ◌&&◌, ◌||◌, not, Option, none, some, List, [], ◌∷◌,
  if◌then◌else◌,
}
use bitcoin_trading_strategy.Shared.Int.{ℤ, pos, neg, eqb_ℤ}
use bitcoin_trading_strategy.Shared.Result.{Result, ok, err, runtime_error, map_ok, ◌>>=◌, ◌>>◌}
use bitcoin_trading_strategy.Shared.Text.{strip, is_empty, upper, lower}
use bitcoin_trading_strategy.Protocol.{JsonValue, text, other, payload_get}
use bitcoin_trading_strategy.SignalLifecycle.{SignalLifecycleState, long_open, short_open}
use bitcoin_trading_strategy.RiskManager.{contains_symbol}
use bitcoin_trading_strategy.PaperTrader.Policy.{
  supported_eagle_symbol, approved_quantity, DurableOpenSignal, same_state,
}

-- A dict of the hello's `open_positions`.
abbrev pub EaglePosition : Type 0
EaglePosition = List (String × JsonValue)

-- A field that must be a text that is not blank, stripped.
stripped_text : Option JsonValue → Result String
stripped_text (some (text raw)) = if is_empty (strip raw) then err runtime_error else ok (strip raw)
stripped_text _ = err runtime_error

unfoldable pub field_text : String → EaglePosition → Result String
unfolding stripped_text
field_text name p = stripped_text (payload_get name p)

-- `get_relevant_btc_eagle_open_positions`
unfoldable pub get_relevant_btc_eagle_open_positions :
    List EaglePosition → Result (List EaglePosition)
get_relevant_btc_eagle_open_positions [] = ok []
get_relevant_btc_eagle_open_positions (p ∷ ps) = do
  symbol ← field_text "symbol" p
  rest ← get_relevant_btc_eagle_open_positions ps
  ok (if str_eq (upper symbol) supported_eagle_symbol then p ∷ rest else rest)

signal_ids_of : List EaglePosition → Result (List String)
signal_ids_of [] = ok []
signal_ids_of (p ∷ ps) = do
  signal_id ← field_text "signal_id" p
  rest ← signal_ids_of ps
  ok (signal_id ∷ rest)

-- `len(set(ids)) == len(ids)`
unfoldable pub all_distinct : List String → Bool
all_distinct [] = true
all_distinct (x ∷ xs) = let rest = all_distinct xs in not (contains_symbol x xs) && rest

distinct_ids : List EaglePosition → Result (List String)
unfolding signal_ids_of
distinct_ids ps = do ids ← signal_ids_of ps; if all_distinct ids then ok ids else err runtime_error

-- `get_missed_eagle_signal_ids`
unfoldable pub get_missed_eagle_signal_ids :
    List EaglePosition → ℤ → List DurableOpenSignal → Result (List String)
unfolding distinct_ids
get_missed_eagle_signal_ids relevant broker_position [] =
    if eqb_ℤ broker_position (pos 0) then distinct_ids relevant else ok []
get_missed_eagle_signal_ids relevant broker_position (_ ∷ _) = ok []

unfoldable pub direction_of : SignalLifecycleState → String
direction_of short_open = "short"
direction_of _ = "long"

unfoldable pub require : Bool → Result (Unit {0})
require true = ok tt
require false = err runtime_error

-- The last part of `require_eagle_hello_reconciled`: one position of Eagle, and one open signal.
unfoldable pub require_match : EaglePosition → DurableOpenSignal → ℤ → ℤ → Result (Unit {0})
unfolding require direction_of
require_match eagle_open durable_open broker_position expected_quantity = do
  signal_id ← field_text "signal_id" eagle_open
  raw_direction ← field_text "direction" eagle_open
  let direction = lower raw_direction
  let expected = if eqb_ℤ broker_position expected_quantity then long_open else short_open
  require (str_eq direction "long" || str_eq direction "short")
  require (str_eq signal_id durable_open.signal_id)
  require (same_state durable_open.state expected)
  require (str_eq direction (direction_of expected))

-- The same function on the lists, where the broker is not flat.
unfoldable pub require_positioned :
    List EaglePosition → List DurableOpenSignal → ℤ → ℤ → Result (Unit {0})
unfolding require require_match
require_positioned (eagle_open ∷ []) (durable_open ∷ []) broker_position expected_quantity = do
  require (eqb_ℤ broker_position (neg expected_quantity) || eqb_ℤ broker_position expected_quantity)
  require_match eagle_open durable_open broker_position expected_quantity
require_positioned _ _ broker_position expected_quantity = err runtime_error

unfoldable pub require_flat : List EaglePosition → List DurableOpenSignal → Result (Unit {0})
require_flat [] [] = ok tt
require_flat _ _ = err runtime_error

-- `require_eagle_hello_reconciled`
unfoldable pub require_eagle_hello_reconciled :
    List EaglePosition → ℤ → List DurableOpenSignal → ℤ → Result (Unit {0})
unfolding require_flat
require_eagle_hello_reconciled relevant broker_position open_signals expected_quantity = do
  q ← approved_quantity expected_quantity
  if eqb_ℤ broker_position (pos 0)
      then require_flat relevant open_signals
      else require_positioned relevant open_signals broker_position q
