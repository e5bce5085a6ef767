-- ===== src/Reconnection/Watchdog.antt =====
-- app/heartbeat_watchdog.py: the loop that reports that heartbeats have stopped. What other tasks do
-- while it sleeps is in what each wake-up sees.
use bitcoin_trading_strategy.Shared.{
  ℕ, suc, ◌+◌, ◌≤◌, ◌≡◌, refl, inl, inr, Bool, true, false, Option, none, some, List, [], ◌∷◌, ◌++◌,
  length, leb, ltb, arith, Bool-cases, Option-cases, if◌then◌else◌,
}
use bitcoin_trading_strategy.Shared.Result.{Result, ok, err, connection_error, is_ok}
use bitcoin_trading_strategy.Reconnection.{ConnectionHealth, is_healthy}

-- `check`: `HeartbeatTimeoutError` is a `ConnectionError`.
unfoldable pub check : ℕ → ConnectionHealth → Result (Unit {0})
check now h = if is_healthy now h then ok tt else err connection_error

-- A wake-up of the loop: the time since it started, the health that it finds, and the clock.
pub record Wake : Type 0 where
  pub elapsed : ℕ
  pub health : ConnectionHealth
  pub now : ℕ

-- What a wake-up does: whether it calls `on_timeout`.
unfoldable pub calls_timeout : ℕ → Wake → Bool
unfolding check
calls_timeout initial_timeout w = elim w.health.last_heartbeat_at [
  | none ↦ if leb w.elapsed initial_timeout then false else true
  | some _ ↦ if is_ok (check w.now w.health) then false else true
]

-- `monitor` over some wake-ups: the one that calls `on_timeout` and ends the loop, counted from `n`,
-- or `none` where the loop is still running.
unfoldable pub monitor : ℕ → ℕ → List Wake → Option ℕ
unfolding calls_timeout
monitor initial_timeout n [] = none
monitor initial_timeout n (w ∷ ws) =
    let rest = monitor initial_timeout (suc n) ws in
    if calls_timeout initial_timeout w then some n else rest

-- A wake-up is late where no heartbeat came within the first timeout, or the last one is older than
-- the timeout.
abbrev pub is_late : ℕ → Wake → Bool
is_late initial_timeout w = elim w.health.last_heartbeat_at [
  | none ↦ ltb initial_timeout w.elapsed
  | some t ↦ ltb (t + w.health.heartbeat_timeout) w.now
]

calls-late : (initial : ℕ) (w : Wake) → calls_timeout initial w ≡ is_late initial w
unfolding calls_timeout check is_healthy
calls-late initial w = elim (Option-cases w.health.last_heartbeat_at) [
  | inl e ↦ rw e (ground arith)
  | inr (t, e) ↦ rw e (ground arith)
]

-- The first late wake-up.
abbrev pub first_late : ℕ → List Wake → Option ℕ
first_late initial [] = none
first_late initial (w ∷ ws) =
    let rest = first_late initial ws in
    if is_late initial w then some 0 else elim rest [ none ↦ none | some n ↦ some (suc n) ]

abbrev plus : ℕ → Option ℕ → Option ℕ
plus n none = none
plus n (some m) = some (n + m)

monitor-plus :
    (initial n : ℕ) (ws : List Wake) → monitor initial n ws ≡ plus n (first_late initial ws)
unfolding monitor
monitor-plus initial n [] = refl
monitor-plus initial n (w ∷ ws) =
    ground (arith, calls-late initial w, monitor-plus initial (suc n) ws)

first_late-within :
    (initial : ℕ) (xs ys : List Wake) (w : Wake)
    → is_late initial w ≡ true
    → (n : ℕ) × (first_late initial (xs ++ w ∷ ys) ≡ some n) × (n ≤ length xs)
first_late-within initial [] ys w l = (0, rw l refl, omega arith)
first_late-within initial (x ∷ xs) ys w l =
    let (n, e, b) = first_late-within initial xs ys w l in
    elim (Bool-cases (is_late initial x)) [
      | inl p ↦ (0, rw p refl, omega arith)
      | inr p ↦ (suc n, rw p (rw e refl), omega (arith, b))
    ]

-- If a wake-up is late, because no heartbeat came within the first timeout or the last one is older
-- than the timeout of the connection's health, then monitor calls on_timeout at that wake-up or at an
-- earlier one that is the first late one, and ends.
pub monitor_fires :
    (initial : ℕ) (xs ys : List Wake) (w : Wake)
    → is_late initial w ≡ true
    → (n : ℕ) × (monitor initial 0 (xs ++ w ∷ ys) ≡ some n)
      × (first_late initial (xs ++ w ∷ ys) ≡ some n)
      × (n ≤ length xs)
monitor_fires initial xs ys w l =
    let (n, e, b) = first_late-within initial xs ys w l in
    (n, rw (monitor-plus initial 0 (xs ++ w ∷ ys)) (rw e (ground arith)), e, b)
