-- ===== src/PaperTrader/Waiting.antt =====
-- The waits of scripts/run_real_eagle_ib_paper_trader.py. The clock and the condition are those of
-- each poll; what other threads do between two polls is in them.
use bitcoin_trading_strategy.Shared.{
  ℕ, zero, suc, ◌+◌, ◌≤◌, ◌<◌, ◌≡◌, Bool, true, false, Option, none, some, leb, if◌then◌else◌,
}
use bitcoin_trading_strategy.Shared.Result.{Result, ok, err, timeout_error}

-- The loop of `wait_until` from the poll `n` on: the poll at which the condition held, or
-- `TimeoutError`, or `none` where the fuel does not suffice. `clock n` is what `time.monotonic()`
-- reads at the poll `n`.
unfoldable pub poll : ℕ → (ℕ → Bool) → (ℕ → ℕ) → ℕ → ℕ → Option (Result ℕ)
poll zero condition clock deadline n = none
poll (suc fuel) condition clock deadline n =
    let rest = poll fuel condition clock deadline (suc n) in
    if condition n
    then some (ok n)
    else if leb deadline (clock n)
    then some (err timeout_error)
    else rest

-- `wait_until`, with the clock in the unit of the timeout; `started` is its first reading.
unfoldable pub wait_until : ℕ → (ℕ → Bool) → (ℕ → ℕ) → ℕ → ℕ → Option (Result ℕ)
wait_until fuel condition clock started timeout = poll fuel condition clock (started + timeout) 0

-- What a loop of polls ends with.
abbrev pub IsVerdict : (ℕ → Bool) → (ℕ → ℕ) → ℕ → ℕ → Result ℕ → Type 0
IsVerdict condition clock deadline n (ok m) =
    (n ≤ m)
    × (condition m ≡ true)
    × ((k : ℕ) → n ≤ k → k < m → (condition k ≡ false) × (clock k < deadline))
IsVerdict condition clock deadline n (err e) =
    (e ≡ timeout_error)
    × ((m : ℕ) × (n ≤ m)
        × (deadline ≤ clock m)
        × ((k : ℕ) → n ≤ k → k < suc m → condition k ≡ false))
