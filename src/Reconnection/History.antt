-- ===== src/Reconnection/History.antt =====
-- When trading resumes, by the history of a session: app/resume_manager.py and what it asks.
use bitcoin_trading_strategy.Shared.{
  ℕ, suc, ◌+◌, ◌≡◌, refl, inl, inr, Bool, true, false, ◌&&◌, not, Option, none, some, List, [], ◌∷◌,
  leb, arith, Bool-cases, Option-cases, sym, ◌∙◌, if◌then◌else◌,
}
use bitcoin_trading_strategy.Shared.Result.{ok}
use bitcoin_trading_strategy.TradingControls.{TradingControls, pause, resume}
use bitcoin_trading_strategy.Reconnection.{
  ResumeResult, ConnectionHealth, record_heartbeat, is_healthy, HelloCounts, ReplayTracker,
  new_tracker, replay_complete, process_hello, record_lifecycle_event, counted, Position, matched,
  mismatched, same_rows, sort_positions, never_checked, reconcile, Session, is_matched, evaluate,
  resumed, rejected, request_resume, settle_resume, not_ready,
}

-- What happens in a session.
pub data Step : Type 0 where
  hello : HelloCounts → Step
  lifecycle_event : Step
  heartbeat : ℕ → Step
  reconciliation : List Position → List Position → Step
  request : ℕ → Step

abbrev pub step : Step → Session → Session
step (hello h) s = record s { tracker = process_hello h s.tracker }
step lifecycle_event s = record s { tracker = (record_lifecycle_event s.tracker).1 }
step (heartbeat t) s = record s { health = record_heartbeat t s.health }
step (reconciliation eagle broker) s = record s {
  last_result = (reconcile eagle broker s.last_result).1;
}
step (request now) s = (request_resume now s).1

-- The session after some steps, the newest first.
unfoldable pub after : List Step → Session → Session
after [] s = s
after (x ∷ xs) s = step x (after xs s)

-- A session that begins with the timeout `timeout` and the given controls.
abbrev pub new_session : ℕ → TradingControls → Session
new_session timeout controls = record {
  tracker = new_tracker;
  last_result = never_checked;
  health = record { heartbeat_timeout = timeout; last_heartbeat_at = none };
  controls = controls;
}

-- The number of events that the last hello announced.
abbrev pub announced : List Step → Option ℕ
announced [] = none
announced (hello h ∷ xs) = some h.replay_count
announced (_ ∷ xs) = announced xs

-- The number of lifecycle events since the last hello.
abbrev pub heard : List Step → ℕ
heard [] = 0
heard (hello h ∷ xs) = 0
heard (lifecycle_event ∷ xs) = suc (heard xs)
heard (_ ∷ xs) = heard xs

-- Whether the last reconciliation compared equal positions.
abbrev pub agreed : List Step → Bool
agreed [] = false
agreed (reconciliation eagle broker ∷ xs) = same_rows (sort_positions eagle) (sort_positions broker)
agreed (_ ∷ xs) = agreed xs

abbrev pub last_heartbeat : List Step → Option ℕ
last_heartbeat [] = none
last_heartbeat (heartbeat t ∷ xs) = some t
last_heartbeat (_ ∷ xs) = last_heartbeat xs

abbrev pub replayed : Option ℕ → ℕ → Bool
replayed none n = false
replayed (some expected) n = leb expected n

-- A heartbeat is fresh at `now` where it is not older than the timeout.
abbrev pub fresh : Option ℕ → ℕ → ℕ → Bool
fresh none timeout now = false
fresh (some t) timeout now = leb now (t + timeout)

-- What the program promises of a resumption.
abbrev pub may_resume : ℕ → List Step → ℕ → Bool
may_resume timeout xs now =
    replayed (announced xs) (heard xs) && agreed xs && fresh (last_heartbeat xs) timeout now

-- What the tracker knows of the history.
abbrev Tracks : Option ℕ → ℕ → ReplayTracker → Type 0
Tracks none n t = t.hello_received ≡ false
Tracks (some expected) n t =
    (t.hello_received ≡ true)
    × (t.expected_replay_count ≡ expected)
    × (t.processed_replay_count ≡ (if leb expected n then expected else n))

Tracks-complete :
    (o : Option ℕ) (n : ℕ) (t : ReplayTracker) → Tracks o n t → replay_complete t ≡ replayed o n
unfolding replay_complete
Tracks-complete none n t h = rw h refl
Tracks-complete (some expected) n t h = ground (arith, h)

Tracks-hello :
    (h : HelloCounts) (t : ReplayTracker) → Tracks (some h.replay_count) 0 (process_hello h t)
unfolding process_hello
Tracks-hello h t = (refl, refl, ground arith)

Tracks-event :
    (o : Option ℕ) (n : ℕ) (t : ReplayTracker)
    → Tracks o n t
    → Tracks o (suc n) (record_lifecycle_event t).1
unfolding record_lifecycle_event counted replay_complete
Tracks-event none n t h = ground (arith, h)
Tracks-event (some expected) n t h = (ground (arith, h), ground (arith, h), ground (arith, h))

record IsKnown (timeout : ℕ) (xs : List Step) (s : Session) : Type 0 where
  tracks : Tracks (announced xs) (heard xs) s.tracker
  status : is_matched s.last_result.status ≡ agreed xs
  beat : s.health.last_heartbeat_at ≡ last_heartbeat xs
  limit : s.health.heartbeat_timeout ≡ timeout

-- A request changes the controls only.
request-controls :
    (now : ℕ) (s : Session)
    → (request_resume now s).1 ≡ record s {
      controls = (if (evaluate now s).ready then resume s.controls else pause s.controls).1;
    }
unfolding request_resume settle_resume pause resume
request-controls now s = elim (Bool-cases (evaluate now s).ready) [
  | inl r ↦ rw r refl
  | inr r ↦ rw r refl
]

compared-status : (b : Bool) → is_matched (if b then matched else mismatched) ≡ b
compared-status true = refl
compared-status false = refl

known :
    (timeout : ℕ) (xs : List Step) (controls : TradingControls)
    → IsKnown timeout xs (after xs (new_session timeout controls))
unfolding after reconcile record_heartbeat
known timeout [] controls = record { tracks = refl; status = refl; beat = refl; limit = refl }
known timeout (hello h ∷ xs) controls =
    let k = known timeout xs controls in
    record { tracks = Tracks-hello h _; status = k.status; beat = k.beat; limit = k.limit }
known timeout (lifecycle_event ∷ xs) controls =
    let k = known timeout xs controls in
    record {
      tracks = Tracks-event _ _ _ k.tracks;
      status = k.status;
      beat = k.beat;
      limit = k.limit;
    }
known timeout (heartbeat t ∷ xs) controls =
    let k = known timeout xs controls in
    record { tracks = k.tracks; status = k.status; beat = refl; limit = k.limit }
known timeout (reconciliation eagle broker ∷ xs) controls =
    let k = known timeout xs controls in
    record { tracks = k.tracks; status = compared-status _; beat = k.beat; limit = k.limit }
known timeout (request now ∷ xs) controls =
    let k = known timeout xs controls in
    rw (request-controls now (after xs (new_session timeout controls)))
      (record { tracks = k.tracks; status = k.status; beat = k.beat; limit = k.limit })

healthy-fresh :
    (now : ℕ) (h : ConnectionHealth)
    → is_healthy now h ≡ fresh h.last_heartbeat_at h.heartbeat_timeout now
unfolding is_healthy
healthy-fresh now h = elim (Option-cases h.last_heartbeat_at) [
  | inl n ↦ rw n refl
  | inr (t, e) ↦ rw e (ground arith)
]

hello_of_complete :
    (t : ReplayTracker) → replay_complete t ≡ (t.hello_received && replay_complete t)
unfolding replay_complete
hello_of_complete t = ground arith

ready_eq :
    (now : ℕ) (s : Session)
    → (evaluate now s).ready
      ≡ (replay_complete s.tracker && is_matched s.last_result.status && is_healthy now s.health)
unfolding evaluate not_ready
ready_eq now s = ground (arith, hello_of_complete s.tracker)

ready-may_resume :
    (timeout : ℕ) (controls : TradingControls) (xs : List Step) (now : ℕ)
    → (evaluate now (after xs (new_session timeout controls))).ready ≡ may_resume timeout xs now
ready-may_resume timeout controls xs now =
    let s = after xs (new_session timeout controls) in
    let k = known timeout xs controls in
    let complete = Tracks-complete (announced xs) (heard xs) s.tracker k.tracks in
    rw (ready_eq now s)
      (rw complete (rw k.status (rw (healthy-fresh now s.health) (rw k.beat (rw k.limit refl)))))

-- After any hellos, lifecycle events, heartbeats, reconciliations and requests, a request to resume
-- returns RESUMED and leaves trading running if there was a hello and since the last one at least as
-- many lifecycle events as it announced, the last reconciliation compared equal positions, and the
-- last heartbeat is not older than the timeout; otherwise it returns REJECTED and leaves trading
-- paused.
pub resumes_if_may_resume :
    (timeout : ℕ) (controls : TradingControls) (xs : List Step) (now : ℕ)
    → let (r, s') = request_resume now (after xs (new_session timeout controls)) in
      (result : ResumeResult) × (r ≡ ok result)
      × (result.status ≡ (if may_resume timeout xs now then resumed else rejected))
      × (s'.controls.paused ≡ not (may_resume timeout xs now))
unfolding request_resume settle_resume pause resume
resumes_if_may_resume timeout controls xs now =
    let s = after xs (new_session timeout controls) in
    let ready = ready-may_resume timeout controls xs now in
    elim (Bool-cases (evaluate now s).ready) [
      | inl r ↦
          (let e : may_resume timeout xs now ≡ true = sym ready ∙ r in
            (
              record { status = resumed; reason = (evaluate now s).reason },
              rw r refl,
              rw e refl,
              rw r (rw e refl),
            ))
      | inr r ↦
          (let e : may_resume timeout xs now ≡ false = sym ready ∙ r in
            (
              record { status = rejected; reason = (evaluate now s).reason },
              rw r refl,
              rw e refl,
              rw r (rw e refl),
            ))
    ]
