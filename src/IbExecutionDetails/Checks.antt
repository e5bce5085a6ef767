-- ===== src/IbExecutionDetails/Checks.antt =====
-- The checks of app/ib_execution_details_transport.py on a callback.
use bitcoin_trading_strategy.Shared.{String, str_eq, ◌||◌, Option, none, some, if◌then◌else◌}
use bitcoin_trading_strategy.Shared.Result.{Result, ok, err, runtime_error, map_ok, ◌>>=◌}
use bitcoin_trading_strategy.Shared.Text.{validate_identifier, strip, is_empty, upper}
use bitcoin_trading_strategy.ExecutionLedger.{ExecutionRecord}

-- `_normalize_optional_execution_time`, where a value is a text.
unfoldable pub normalize_optional_execution_time : Option String → Option String
normalize_optional_execution_time none = none
normalize_optional_execution_time (some text) =
    let normalized = strip text in if is_empty normalized then none else some normalized

-- `_validate_contract`
unfoldable pub validate_contract : String → ExecutionRecord → Result (Unit {0})
validate_contract raw_symbol r = do
  symbol ← map_ok upper (validate_identifier raw_symbol)
  if str_eq symbol (upper r.symbol) then ok tt else err runtime_error

-- The side that an intent stands for, or the `RuntimeError` of an unknown intent.
unfoldable pub expected_side : String → Result String
expected_side intent =
    if str_eq intent "BUY_TO_OPEN" || str_eq intent "BUY_TO_CLOSE"
    then ok "BOT"
    else if str_eq intent "SELL_TO_OPEN" || str_eq intent "SELL_TO_CLOSE"
    then ok "SLD"
    else err runtime_error

-- `_validate_execution_side`
unfoldable pub validate_execution_side : String → ExecutionRecord → Result (Unit {0})
unfolding expected_side
validate_execution_side side r = do
  normalized ← map_ok upper (validate_identifier side)
  expected ← expected_side r.intent
  if str_eq normalized expected then ok tt else err runtime_error
