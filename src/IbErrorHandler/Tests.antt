-- ===== src/IbErrorHandler/Tests.antt =====
-- Messages of the broker to app/ib_error_handler.py.
use bitcoin_trading_strategy.Shared.{◌≡◌, refl, true, [], ◌∷◌}
use bitcoin_trading_strategy.Shared.Int.{pos, negsuc}
use bitcoin_trading_strategy.Shared.Result.{ok}
use bitcoin_trading_strategy.Shared.Text.{validate_identifier, strip, is_space}
use bitcoin_trading_strategy.KillSwitch.{new_switch}
use bitcoin_trading_strategy.ExecutionLedger.{empty}
use bitcoin_trading_strategy.IbErrorHandler.{
  Broker, IbErrorResult, critical, validate_request_id, validate_error_code,
}
use bitcoin_trading_strategy.IbErrorHandler.Latch.{ErrorEvent, hear, heard, critical_latches}

abbrev broker : Broker
broker = record { ledger = empty; kill_switch = new_switch }

abbrev not_connected : ErrorEvent
not_connected = record {
  now = 10;
  request_id = negsuc 0;
  error_code = pos 504;
  message = "Not connected";
}

abbrev restored : ErrorEvent
restored = record {
  now = 11;
  request_id = negsuc 0;
  error_code = pos 1102;
  message = "Connectivity restored";
}

request_id_valid : validate_request_id (negsuc 0) ≡ ok (negsuc 0)
unfolding validate_request_id
request_id_valid = refl

code_valid : validate_error_code (pos 504) ≡ ok 504
unfolding validate_error_code
code_valid = refl

message_valid : validate_identifier "Not connected" ≡ ok "Not connected"
unfolding validate_identifier strip is_space
message_valid = refl

critical_latches_example :
    let (r, b') = hear not_connected broker in
    ((res : IbErrorResult) × (r ≡ ok res)
      × (res.severity ≡ critical)
      × (res.trading_blocked ≡ true))
    × (b'.kill_switch.active ≡ true)
    × ((heard (restored ∷ []) b').kill_switch ≡ b'.kill_switch)
critical_latches_example =
    critical_latches not_connected (restored ∷ []) broker (negsuc 0) 504 "Not connected"
      request_id_valid code_valid message_valid refl
