-- ===== src/Reconnection/Tests.antt =====
-- Resuming and the watchdog on concrete histories.
use bitcoin_trading_strategy.Shared.{
  ℕ, ◌≤◌, ◌≡◌, refl, true, not, some, List, [], ◌∷◌, ◌++◌, length, if◌then◌else◌,
}
use bitcoin_trading_strategy.Shared.Int.{pos}
use bitcoin_trading_strategy.Shared.Result.{ok}
use bitcoin_trading_strategy.Shared.Decimal.{of_int}
use bitcoin_trading_strategy.Shared.Sort.{sort_by, insert_by}
use bitcoin_trading_strategy.TradingControls.{TradingControls}
use bitcoin_trading_strategy.Reconnection.{
  Position, ResumeResult, resumed, rejected, request_resume, sort_positions, row_leb, item_leb,
}
use bitcoin_trading_strategy.Reconnection.History.{
  Step, hello, lifecycle_event, heartbeat, reconciliation, request, after, new_session, may_resume,
  resumes_if_may_resume,
}
use bitcoin_trading_strategy.Reconnection.Watchdog.{Wake, monitor, first_late, monitor_fires}

abbrev controls : TradingControls
controls = record {
  paused = true;
  symbol = "MBT";
  quantity = pos 1;
  stop_loss_points = of_int (pos 500);
}

-- The same positions, in another order.
abbrev eagle : List Position
eagle = (("symbol", "'MBT'") ∷ ("side", "'LONG'") ∷ []) ∷ (("symbol", "'ES'") ∷ []) ∷ []

abbrev broker : List Position
broker = (("symbol", "'ES'") ∷ []) ∷ (("side", "'LONG'") ∷ ("symbol", "'MBT'") ∷ []) ∷ []

sort_runs : sort_positions eagle ≡ sort_positions broker
unfolding sort_positions sort_by insert_by row_leb item_leb
sort_runs = refl

-- One event was announced and came; the newest step is first.
abbrev history : List Step
history =
    heartbeat 500
    ∷ reconciliation eagle broker
    ∷ lifecycle_event
    ∷ hello (record { replay_count = 1; last_seq = 9; since_seq = 8 })
    ∷ request 400
    ∷ []

may_resume_runs : may_resume 100 history 600 ≡ true
unfolding sort_positions sort_by insert_by row_leb item_leb
may_resume_runs = refl

resumes_if_may_resume_example :
    let (r, s') = request_resume 600 (after history (new_session 100 controls)) in
    (result : ResumeResult) × (r ≡ ok result)
    × (result.status ≡ (if may_resume 100 history 600 then resumed else rejected))
    × (s'.controls.paused ≡ not (may_resume 100 history 600))
resumes_if_may_resume_example = resumes_if_may_resume 100 controls history 600

abbrev wake : ℕ → Wake
wake now = record {
  elapsed = now;
  health = record { heartbeat_timeout = 45; last_heartbeat_at = some 10 };
  now = now;
}

monitor_fires_example :
    (n : ℕ) × (monitor 45 0 ((wake 20 ∷ []) ++ wake 60 ∷ []) ≡ some n)
    × (first_late 45 ((wake 20 ∷ []) ++ wake 60 ∷ []) ≡ some n)
    × (n ≤ length (wake 20 ∷ []))
monitor_fires_example = monitor_fires 45 (wake 20 ∷ []) [] (wake 60) refl
