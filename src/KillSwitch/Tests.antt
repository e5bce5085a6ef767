-- ===== src/KillSwitch/Tests.antt =====
-- The switch of app/kill_switch.py on concrete calls.
use bitcoin_trading_strategy.Shared.{◌≡◌, refl, true, some, [], ◌∷◌}
use bitcoin_trading_strategy.Shared.Text.{validate_identifier, strip, is_space}
use bitcoin_trading_strategy.KillSwitch.{new_switch, activate_all, first_cause_kept}

first_cause_kept_example :
    activate_all ((3, " loss ") ∷ (4, "again") ∷ (5, "") ∷ []) new_switch
    ≡ record { active = true; reason = some "loss"; activated_at = some 3 }
unfolding validate_identifier strip is_space
first_cause_kept_example = first_cause_kept 3 " loss " "loss" ((4, "again") ∷ (5, "") ∷ []) refl
