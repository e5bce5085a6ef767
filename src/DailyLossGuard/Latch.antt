-- ===== src/DailyLossGuard/Latch.antt =====
-- When the latch of app/daily_loss_guard.py is open, the loss is below the limit.
use bitcoin_trading_strategy.Shared.{
  ◌≡◌, refl, inl, inr, All, sym, true, false, Option, List, [], ◌∷◌, arith,
}
use mathlib.Core.Path.{subst}
use bitcoin_trading_strategy.Shared.Int.{pos, leb_ℤ, ◌+ℤ◌, neg}
use bitcoin_trading_strategy.Shared.Decimal.{
  Decimal, Finite, zero_dec, add_dec, neg_dec, le_dec, validate_positive_decimal,
  validate_finite_decimal,
}
use bitcoin_trading_strategy.Shared.Result.{Result-cases, ok}
use bitcoin_trading_strategy.DailyLossGuard.{
  DailyLossGuard, new_guard, init, total_pnl, remaining_loss_capacity, evaluate_limit,
  update_realized_pnl, update_unrealized_pnl, update_pnl, reset_day,
}

-- The calls that write. The last is the start of a new day.
pub data Call : Type 0 where
  realized_call unrealized_call : Option Decimal → Call
  both_call : Option Decimal → Option Decimal → Call
  reset_call : Call

unfoldable pub after : Call → DailyLossGuard → DailyLossGuard
after (realized_call v) g = (update_realized_pnl v g).1
after (unrealized_call v) g = (update_unrealized_pnl v g).1
after (both_call v w) g = (update_pnl v w g).1
after reset_call g = (reset_day g).1

-- The guard after the calls, of which any may have raised.
unfoldable pub run : List Call → DailyLossGuard → DailyLossGuard
unfolding after
run [] g = g
run (c ∷ cs) g = run cs (after c g)

-- The limit is that of the start, and an open latch means that the total has not reached it.
pub record IsSound (limit : Finite) (g : DailyLossGuard) : Type 0 where
  pub limited : g.max_daily_loss ≡ limit
  pub open_above : g.tripped ≡ false → le_dec (total_pnl g) (neg_dec limit) ≡ false

evaluate_limit-IsSound :
    (limit : Finite) (g : DailyLossGuard)
    → g.max_daily_loss ≡ limit
    → IsSound limit (evaluate_limit g)
unfolding evaluate_limit total_pnl
evaluate_limit-IsSound limit g h = record {
  limited = ground arith;
  open_above = λ o. ground (arith, h, o);
}

new_guard-IsSound :
    (limit : Finite) → leb_ℤ limit.coefficient (pos 0) ≡ false → IsSound limit (new_guard limit)
unfolding total_pnl le_dec add_dec neg_dec ◌+ℤ◌ neg
new_guard-IsSound limit h = record { limited = refl; open_above = λ o. ground arith }

after-IsSound :
    (limit : Finite)
    → leb_ℤ limit.coefficient (pos 0) ≡ false
    → (c : Call) (g : DailyLossGuard) → IsSound limit g
    → IsSound limit (after c g)
unfolding after update_realized_pnl update_unrealized_pnl update_pnl reset_day
after-IsSound limit p (realized_call v) g h = elim (Result-cases (validate_finite_decimal v)) [
  | inl (x, q) ↦ rw (q, after) h
  | inr (d, q) ↦ rw (q, after) (evaluate_limit-IsSound limit _ h.limited)
]
after-IsSound limit p (unrealized_call v) g h = elim (Result-cases (validate_finite_decimal v)) [
  | inl (x, q) ↦ rw (q, after) h
  | inr (d, q) ↦ rw (q, after) (evaluate_limit-IsSound limit _ h.limited)
]
after-IsSound limit p (both_call v w) g h = elim (Result-cases (validate_finite_decimal v)) [
  | inl (x, q) ↦ rw (q, after) h
  | inr (d, q) ↦ elim (Result-cases (validate_finite_decimal w)) [
    | inl (x, t) ↦ rw (q, after) (rw (t, after) h)
    | inr (e, t) ↦ rw (q, after) (rw (t, after) (evaluate_limit-IsSound limit _ h.limited))
  ]
]
after-IsSound limit p reset_call g h = rw h.limited (new_guard-IsSound limit p)

run-IsSound :
    (limit : Finite)
    → leb_ℤ limit.coefficient (pos 0) ≡ false
    → (cs : List Call) (g : DailyLossGuard) → IsSound limit g
    → IsSound limit (run cs g)
unfolding run
run-IsSound limit p [] g h = h
run-IsSound limit p (c ∷ cs) g h = run-IsSound limit p cs (after c g) (after-IsSound limit p c g h)

-- A total above the negated limit leaves a capacity above zero.
capacity_left :
    (total limit : Finite)
    → le_dec total (neg_dec limit) ≡ false
    → le_dec (add_dec limit total) zero_dec ≡ false
unfolding le_dec add_dec neg_dec ◌+ℤ◌ neg
capacity_left total limit h = ground arith

init-limit :
    (value : Option Decimal) (g : DailyLossGuard)
    → init value ≡ ok g
    → (g ≡ new_guard g.max_daily_loss) × (leb_ℤ g.max_daily_loss.coefficient (pos 0) ≡ false)
unfolding init validate_positive_decimal
init-limit value g h = (ground (arith, h), ground (arith, h))

-- A guard that was made with any valid limit, and on which any calls of the update methods and of
-- reset_day were made, returning or raising, and whose latch is open, has lost less than the limit:
-- the sum of the realized and the unrealized value is above the negated limit that the guard was made
-- with, and remaining_loss_capacity is the limit plus that sum, which is above zero.
pub untripped_above_limit :
    (value : Option Decimal) (g : DailyLossGuard) (cs : List Call)
    → init value ≡ ok g
    → (run cs g).tripped ≡ false
    → let total = add_dec (run cs g).realized_pnl (run cs g).unrealized_pnl in
      (le_dec total (neg_dec g.max_daily_loss) ≡ false)
      × (remaining_loss_capacity (run cs g) ≡ add_dec g.max_daily_loss total)
      × (le_dec (remaining_loss_capacity (run cs g)) zero_dec ≡ false)
unfolding total_pnl
untripped_above_limit value g cs h o =
    let (e, p) = init-limit value g h in
    let sound =
      run-IsSound g.max_daily_loss p cs g
        (subst (IsSound g.max_daily_loss) (sym e) (new_guard-IsSound g.max_daily_loss p)) in
    let above = sound.open_above o in
    let left = capacity_left (total_pnl (run cs g)) g.max_daily_loss above in
    let whole : remaining_loss_capacity (run cs g)
        ≡ add_dec g.max_daily_loss (total_pnl (run cs g)) =
      unfold remaining_loss_capacity in ground (arith, o, left, sound.limited) in
    (above, whole, rw whole left)

abbrev pub IsUpdate : Call → Type 0
IsUpdate reset_call = ⊥
IsUpdate _ = Unit

after_tripped :
    (c : Call) (g : DailyLossGuard) → IsUpdate c → g.tripped ≡ true → (after c g).tripped ≡ true
unfolding after update_realized_pnl update_unrealized_pnl update_pnl evaluate_limit
after_tripped (realized_call v) g u h = elim (Result-cases (validate_finite_decimal v)) [
  | inl (x, q) ↦ rw (q, after) h
  | inr (d, q) ↦ rw (q, after) ground (arith, h)
]
after_tripped (unrealized_call v) g u h = ground arith
after_tripped (both_call v w) g u h = ground arith
after_tripped reset_call g u h = absurd u

-- Once the latch is closed, no calls of the update methods, returning or raising, open it.
pub tripped_stays :
    (cs : List Call) (g : DailyLossGuard)
    → All IsUpdate cs
    → g.tripped ≡ true
    → (run cs g).tripped ≡ true
unfolding run
tripped_stays [] g u h = h
tripped_stays (c ∷ cs) g u h = tripped_stays cs (after c g) u.1 (after_tripped c g u.0 h)
