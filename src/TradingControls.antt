-- ===== src/TradingControls.antt =====
-- app/trading_controls.py: the settings that the trader changes at run time.
mod Tests
use bitcoin_trading_strategy.Shared.{
  ◌≡◌, refl, ◌⊎◌, inl, inr, arith, String, Bool, true, false, Option, none, some, if◌then◌else◌,
}
use bitcoin_trading_strategy.Shared.Int.{ℤ, pos, leb_ℤ}
use bitcoin_trading_strategy.Shared.Decimal.{Decimal, Finite, validate_positive_decimal}
use bitcoin_trading_strategy.Shared.Result.{
  Result, Error, Result-cases, ok, err, value_error, map_ok, ◌>>=◌,
}
use bitcoin_trading_strategy.Shared.Action
use bitcoin_trading_strategy.Shared.Action.{Action, modify}
use bitcoin_trading_strategy.Shared.Text.{validate_identifier, upper}
use bitcoin_trading_strategy.Protocol.{TradingSettingsSnapshot}

pub record TradingControls : Type 0 where
  pub paused : Bool
  pub symbol : String
  pub quantity : ℤ
  pub stop_loss_points : Finite

-- `_validate_symbol`
unfoldable pub validate_symbol : String → Result String
validate_symbol symbol = map_ok upper (validate_identifier symbol)

-- `_validate_quantity`
unfoldable pub validate_quantity : ℤ → Result ℤ
validate_quantity quantity = if leb_ℤ quantity (pos 0) then err value_error else ok quantity

-- `__init__`, which starts paused.
unfoldable pub init : String → ℤ → Option Decimal → Result TradingControls
init symbol quantity stop_loss_points = do
  s ← validate_symbol symbol
  q ← validate_quantity quantity
  p ← validate_positive_decimal stop_loss_points
  ok (record { paused = true; symbol = s; quantity = q; stop_loss_points = p })

-- `pause` and `resume`
unfoldable pub pause : Action TradingControls (Unit {0})
pause = modify (λ c. record c { paused = true })

unfoldable pub resume : Action TradingControls (Unit {0})
resume = modify (λ c. record c { paused = false })

-- A setting that may be absent: the old value, or the validated new one.
unfoldable pub supplied : {A B : Type 0} → B → (A → Result B) → Option A → Result B
supplied old validate none = ok old
supplied old validate (some new) = validate new

updated_settings :
    Option String → Option ℤ → Option (Option Decimal) → TradingControls → Result TradingControls
updated_settings symbol quantity stop_loss_points c = do
  s ← supplied c.symbol validate_symbol symbol
  q ← supplied c.quantity validate_quantity quantity
  p ← supplied c.stop_loss_points validate_positive_decimal stop_loss_points
  ok (record c { symbol = s; quantity = q; stop_loss_points = p })

-- Nothing is written where a validation raised.
written_settings : Result TradingControls → Action TradingControls (Unit {0})
written_settings (ok new) c = (ok tt, new)
written_settings (err e) c = (err e, c)

-- `update`
unfoldable pub update :
    Option String → Option ℤ → Option (Option Decimal) → Action TradingControls (Unit {0})
unfolding updated_settings written_settings
update symbol quantity stop_loss_points c =
    written_settings (updated_settings symbol quantity stop_loss_points c) c

-- `create_snapshot`
unfoldable pub create_snapshot : TradingControls → TradingSettingsSnapshot
create_snapshot c = record {
  symbol = c.symbol;
  quantity = c.quantity;
  stop_loss_points = c.stop_loss_points;
}

-- What becomes of a setting: the old value where none is given, or the value that is read in the new.
abbrev pub IsSetting : {A B : Type 0} → (A → Result B) → B → Option A → B → Type 0
IsSetting validate old none value = value ≡ old
IsSetting validate old (some new) value = validate new ≡ ok value

supplied-IsSetting :
    {A B : Type 0} (validate : A → Result B) (old : B) (given : Option A) (value : B)
    → supplied old validate given ≡ ok value
    → IsSetting validate old given value
unfolding supplied
supplied-IsSetting validate old none value h = ground (arith, h)
supplied-IsSetting validate old (some new) value h = h

-- update is all or nothing: it raises and leaves every setting as it was, also those supplied before
-- the one that is not valid, or it returns, and then each setting supplied is the validated new
-- value, each other setting is the old one, and trading is paused if and only if it was.
pub update_all_or_nothing :
    (symbol : Option String) (quantity : Option ℤ) (stop_loss_points : Option (Option Decimal))
    (c : TradingControls)
    → ((x : Error) × (update symbol quantity stop_loss_points c ≡ (err x, c)))
      ⊎ ((new : TradingControls) × (update symbol quantity stop_loss_points c ≡ (ok tt, new))
          × IsSetting validate_symbol c.symbol symbol new.symbol
          × IsSetting validate_quantity c.quantity quantity new.quantity
          × IsSetting validate_positive_decimal c.stop_loss_points stop_loss_points
              new.stop_loss_points
          × (new.paused ≡ c.paused))
unfolding update updated_settings written_settings
update_all_or_nothing symbol quantity stop_loss_points c =
    elim (Result-cases (supplied c.symbol validate_symbol symbol)) [
      | inl (x, p) ↦ inl (x, ground (arith, p))
      | inr (s, p) ↦ elim (Result-cases (supplied c.quantity validate_quantity quantity)) [
        | inl (x, q) ↦ inl (x, ground (arith, p, q))
        | inr (n, q) ↦
            elim (Result-cases
              (supplied c.stop_loss_points validate_positive_decimal stop_loss_points)) [
                | inl (x, t) ↦ inl (x, ground (arith, p, q, t))
                | inr (l, t) ↦ inr (
                  record c { symbol = s; quantity = n; stop_loss_points = l },
                  ground (arith, p, q, t),
                  supplied-IsSetting validate_symbol c.symbol symbol s p,
                  supplied-IsSetting validate_quantity c.quantity quantity n q,
                  supplied-IsSetting validate_positive_decimal c.stop_loss_points stop_loss_points l
                      t,
                  refl,
                )
              ]
      ]
    ]
