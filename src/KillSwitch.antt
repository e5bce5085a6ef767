-- ===== src/KillSwitch.antt =====
-- app/kill_switch.py: the emergency control that blocks new trading.
use bitcoin_trading_strategy.Shared.{
  ℕ, String, ◌≡◌, refl, inl, inr, Bool, true, false, Option, none, some, List, [], ◌∷◌, arith,
  if◌then◌else◌,
}
use bitcoin_trading_strategy.Shared.Result.{ok, Result-cases}
use bitcoin_trading_strategy.Shared.Action.{Action, pure, lift, modify, ◌>>=◌, ◌>>◌}
use bitcoin_trading_strategy.Shared.Text.{validate_identifier}
mod Tests

pub record KillSwitch : Type 0 where
  pub active : Bool
  pub reason : Option String
  pub activated_at : Option ℕ

-- `__init__`
abbrev pub new_switch : KillSwitch
new_switch = record { active = false; reason = none; activated_at = none }

unfoldable pub activate_inactive : ℕ → String → KillSwitch → KillSwitch
activate_inactive now why k =
    if k.active then k else record { active = true; reason = some why; activated_at = some now }

-- `activate`
unfoldable pub activate : ℕ → String → Action KillSwitch (Unit {0})
unfolding activate_inactive
activate now reason = do why ← lift (validate_identifier reason); modify (activate_inactive now why)

-- `reset`
unfoldable pub reset : Action KillSwitch (Unit {0})
reset = modify (λ k. new_switch)

-- The calls of `activate` one after the other, of which some may raise.
unfoldable pub activate_all : List (ℕ × String) → KillSwitch → KillSwitch
activate_all [] k = k
activate_all ((now, reason) ∷ rest) k = activate_all rest (activate now reason k).1

pub active_stays :
    (rest : List (ℕ × String)) (k : KillSwitch) → k.active ≡ true → activate_all rest k ≡ k
unfolding activate_all activate activate_inactive
active_stays [] k h = refl
active_stays ((now, reason) ∷ rest) k h = elim (Result-cases (validate_identifier reason)) [
  | inl (x, p) ↦ rw p (active_stays rest k h)
  | inr (w, p) ↦ rw p (simp h (active_stays rest k h))
]

-- From a new switch, a call of `activate` with a reason that is not blank turns the switch on with
-- that reason, stripped, and the time of the call, and no later calls of `activate`, returning or
-- raising, change either.
pub first_cause_kept :
    (now : ℕ) (reason why : String) (rest : List (ℕ × String))
    → validate_identifier reason ≡ ok why
    → activate_all ((now, reason) ∷ rest) new_switch
      ≡ record { active = true; reason = some why; activated_at = some now }
unfolding activate_all activate activate_inactive
first_cause_kept now reason why rest h =
    rw h (
      active_stays rest (record { active = true; reason = some why; activated_at = some now }) refl)
