-- ===== src/Shared/Decimal.antt =====
-- Python's `Decimal`, exactly: a finite number is coefficient / 10 ^ places. Comparisons of
-- decimals do not round. What `Decimal(str(value))` reads in a caller's argument is an argument
-- here: `none` where it raises `InvalidOperation`.
use bitcoin_trading_strategy.Shared.{
  ℕ, ◌*◌, ◌^◌, ◌≡◌, Bool, Option, some, arith, not, if◌then◌else◌,
}
use bitcoin_trading_strategy.Shared.{◌+◌}
use bitcoin_trading_strategy.Shared.Int.{◌+ℤ◌, neg}
use bitcoin_trading_strategy.Shared.Int.{ℤ, pos, pos_part, neg_part, sub_ℕ, ltb_ℤ, leb_ℤ, eqb_ℤ}
use bitcoin_trading_strategy.Shared.Result.{Result, ok, err, value_error}

pub record Finite : Type 0 where
  pub coefficient : ℤ
  pub places : ℕ

pub data Decimal : Type 0 where
  finite : Finite → Decimal
  infinity nan : Decimal

-- The coefficient of `d` at `p` more places.
abbrev pub scaled : Finite → ℕ → ℤ
scaled d p = sub_ℕ (pos_part d.coefficient * 10 ^ p) (neg_part d.coefficient * 10 ^ p)

abbrev pub of_int : ℤ → Finite
of_int n = record { coefficient = n; places = 0 }

unfoldable pub lt_dec : Finite → Finite → Bool
lt_dec a b = ltb_ℤ (scaled a b.places) (scaled b a.places)

unfoldable pub le_dec : Finite → Finite → Bool
le_dec a b = leb_ℤ (scaled a b.places) (scaled b a.places)

unfoldable pub eq_dec : Finite → Finite → Bool
eq_dec a b = eqb_ℤ (scaled a b.places) (scaled b a.places)

-- `_validate_positive_decimal`: finite and positive.
unfoldable pub validate_positive_decimal : Option Decimal → Result Finite
validate_positive_decimal (some (finite d)) =
    if leb_ℤ d.coefficient (pos 0) then err value_error else ok d
validate_positive_decimal _ = err value_error

-- A validator of a number that may be zero but not negative.
unfoldable pub validate_nonnegative_decimal : Option Decimal → Result Finite
validate_nonnegative_decimal (some (finite d)) =
    if ltb_ℤ d.coefficient (pos 0) then err value_error else ok d
validate_nonnegative_decimal _ = err value_error

-- A validator of any finite number.
unfoldable pub validate_finite_decimal : Option Decimal → Result Finite
validate_finite_decimal (some (finite d)) = ok d
validate_finite_decimal _ = err value_error

-- The three comparisons agree: the order is total.
pub dec_trichotomy : (a b : Finite) → lt_dec a b ≡ not (le_dec b a)
unfolding lt_dec le_dec
dec_trichotomy a b = ground arith

pub le_dec-split : (a b : Finite) → le_dec a b ≡ (if eq_dec a b then le_dec b a else lt_dec a b)
unfolding lt_dec le_dec eq_dec
le_dec-split a b = ground arith

abbrev pub zero_dec : Finite
zero_dec = of_int (pos 0)

-- The sum, exactly: the code's context would round a sum of more than 28 digits.
unfoldable pub add_dec : Finite → Finite → Finite
add_dec a b = record {
  coefficient = scaled a b.places +ℤ scaled b a.places;
  places = a.places + b.places;
}

unfoldable pub neg_dec : Finite → Finite
neg_dec a = record { coefficient = neg a.coefficient; places = a.places }
