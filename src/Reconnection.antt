-- ===== src/Reconnection.antt =====
-- The checks before trading resumes after a reconnection: app/connection_health.py,
-- replay_tracker.py, reconciliation_manager.py, reconnect_readiness.py and resume_manager.py. A time
-- is a number of microseconds.
mod Tests
pub mod History
pub mod Watchdog
use bitcoin_trading_strategy.Shared.{
  ℕ, suc, ◌+◌, ◌*◌, String, str_eq, Bool, true, false, ◌&&◌, not, Option, none, some, List, [], ◌∷◌,
  map, leb, if◌then◌else◌,
}
use bitcoin_trading_strategy.Shared.Int.{ℤ, pos, leb_ℤ, pos_part, sub_ℕ}
use bitcoin_trading_strategy.Shared.Result.{Result, ok, err, value_error, runtime_error}
use bitcoin_trading_strategy.Shared.Sort.{sort_by, text_leb}
use bitcoin_trading_strategy.Shared.Action.{Action, pure, gets, raise_if, modify, zoom, ◌>>=◌, ◌>>◌}
use bitcoin_trading_strategy.TradingControls.{TradingControls, pause, resume}

pub record ConnectionHealth : Type 0 where
  pub heartbeat_timeout : ℕ
  pub last_heartbeat_at : Option ℕ

-- `ConnectionHealth.__init__`
unfoldable pub new_health : ℤ → Result ConnectionHealth
new_health heartbeat_timeout_seconds =
    if leb_ℤ heartbeat_timeout_seconds (pos 0)
    then err value_error
    else ok (record {
      heartbeat_timeout = pos_part heartbeat_timeout_seconds * 1000000;
      last_heartbeat_at = none;
    })

-- `record_heartbeat`
unfoldable pub record_heartbeat : ℕ → ConnectionHealth → ConnectionHealth
record_heartbeat received_at h = record h { last_heartbeat_at = some received_at }

-- `is_healthy`: the age, which is negative before the heartbeat, is at most the timeout.
unfoldable pub is_healthy : ℕ → ConnectionHealth → Bool
is_healthy now h = elim h.last_heartbeat_at [
  | none ↦ false
  | some last ↦ leb_ℤ (sub_ℕ now last) (pos h.heartbeat_timeout)
]

-- `heartbeat_age_seconds`, in microseconds.
unfoldable pub heartbeat_age : ℕ → ConnectionHealth → Option ℤ
heartbeat_age now h = elim h.last_heartbeat_at [ none ↦ none | some last ↦ some (sub_ℕ now last) ]

-- The fields of a validated hello that the tracker reads.
pub record HelloCounts : Type 0 where
  pub replay_count : ℕ
  pub last_seq : ℕ
  pub since_seq : ℕ

pub record ReplayTracker : Type 0 where
  pub hello_received : Bool
  pub expected_replay_count : ℕ
  pub processed_replay_count : ℕ
  pub server_last_seq : Option ℕ
  pub requested_since_seq : Option ℕ

-- `ReplayTracker.__init__`
abbrev pub new_tracker : ReplayTracker
new_tracker = record {
  hello_received = false;
  expected_replay_count = 0;
  processed_replay_count = 0;
  server_last_seq = none;
  requested_since_seq = none;
}

-- `replay_complete`
unfoldable pub replay_complete : ReplayTracker → Bool
replay_complete t = t.hello_received && leb t.expected_replay_count t.processed_replay_count

-- `process_hello`
unfoldable pub process_hello : HelloCounts → ReplayTracker → ReplayTracker
process_hello hello t = record {
  hello_received = true;
  expected_replay_count = hello.replay_count;
  processed_replay_count = 0;
  server_last_seq = some hello.last_seq;
  requested_since_seq = some hello.since_seq;
}

unfoldable pub counted : ReplayTracker → ReplayTracker
unfolding replay_complete
counted t =
    if replay_complete t
    then t
    else record t { processed_replay_count = suc t.processed_replay_count }

-- `record_lifecycle_event`
unfoldable pub record_lifecycle_event : Action ReplayTracker (Unit {0})
unfolding counted
record_lifecycle_event = do
  received ← gets (λ t. t.hello_received)
  raise_if (not received) runtime_error
  modify counted

-- A dict of a position: of each item, the text of the key and the `repr` of the value.
abbrev pub Position : Type 0
Position = List (String × String)

pub data ReconciliationStatus : Type 0 where
  not_checked matched mismatched : ReconciliationStatus

pub record ReconciliationResult : Type 0 where
  pub status : ReconciliationStatus
  pub eagle_positions : List Position
  pub broker_positions : List Position

-- The order of tuples.
unfoldable pub item_leb : String × String → String × String → Bool
item_leb (k, v) (j, w) = if str_eq k j then text_leb v w else text_leb k j

abbrev pub same_item : String × String → String × String → Bool
same_item (k, v) (j, w) = str_eq k j && str_eq v w

unfoldable pub row_leb : Position → Position → Bool
unfolding item_leb
row_leb [] _ = true
row_leb (x ∷ xs) [] = false
row_leb (x ∷ xs) (y ∷ ys) = let rest = row_leb xs ys in if same_item x y then rest else item_leb x y

abbrev pub same_row : Position → Position → Bool
same_row [] [] = true
same_row (x ∷ xs) (y ∷ ys) = let rest = same_row xs ys in same_item x y && rest
same_row _ _ = false

abbrev pub same_rows : List Position → List Position → Bool
same_rows [] [] = true
same_rows (p ∷ ps) (q ∷ qs) = let rest = same_rows ps qs in same_row p q && rest
same_rows _ _ = false

-- `_sort_positions`
unfoldable pub sort_positions : List Position → List Position
sort_positions ps = sort_by row_leb (map (sort_by item_leb) ps)

-- `ReconciliationManager.__init__`
abbrev pub never_checked : ReconciliationResult
never_checked = record { status = not_checked; eagle_positions = []; broker_positions = [] }

abbrev pub compared : List Position → List Position → ReconciliationResult
compared eagle broker = record {
  status = if same_rows (sort_positions eagle) (sort_positions broker) then matched else mismatched;
  eagle_positions = eagle;
  broker_positions = broker;
}

-- `reconcile`, whose state is the last result.
unfoldable pub reconcile :
    List Position → List Position → Action ReconciliationResult ReconciliationResult
reconcile eagle broker = do modify (λ _. compared eagle broker); pure (compared eagle broker)

pub data ReadinessReason : Type 0 where
  no_hello replay_not_complete not_matched heartbeat_not_healthy all_satisfied : ReadinessReason

pub record ReconnectReadinessResult : Type 0 where
  pub ready : Bool
  pub reason : ReadinessReason

-- The objects that the readiness check looks at, and the trading controls.
pub record Session : Type 0 where
  pub tracker : ReplayTracker
  pub last_result : ReconciliationResult
  pub health : ConnectionHealth
  pub controls : TradingControls

abbrev pub is_matched : ReconciliationStatus → Bool
is_matched matched = true
is_matched _ = false

unfoldable pub not_ready : ReadinessReason → ReconnectReadinessResult
not_ready reason = record { ready = false; reason = reason }

-- `ReconnectReadiness.evaluate`
unfoldable pub evaluate : ℕ → Session → ReconnectReadinessResult
unfolding not_ready
evaluate now s =
    if not s.tracker.hello_received
    then not_ready no_hello
    else if not (replay_complete s.tracker)
    then not_ready replay_not_complete
    else if not (is_matched s.last_result.status)
    then not_ready not_matched
    else if not (is_healthy now s.health)
    then not_ready heartbeat_not_healthy
    else record { ready = true; reason = all_satisfied }

pub data ResumeStatus : Type 0 where
  resumed rejected : ResumeStatus

pub record ResumeResult : Type 0 where
  pub status : ResumeStatus
  pub reason : ReadinessReason

abbrev on_controls : Action TradingControls (Unit {0}) → Action Session (Unit {0})
on_controls = zoom (λ s. s.controls) (λ c s. record s { controls = c })

unfoldable pub settle_resume : ReconnectReadinessResult → Action Session ResumeResult
settle_resume result =
    if result.ready
    then (do on_controls resume; pure (record { status = resumed; reason = result.reason }))
    else (do on_controls pause; pure (record { status = rejected; reason = result.reason }))

-- `ResumeManager.request_resume`
unfoldable pub request_resume : ℕ → Action Session ResumeResult
unfolding settle_resume
request_resume now = do result ← gets (evaluate now); settle_resume result
