-- ===== src/ExecutionLedger/Defs.antt =====
-- The tables and methods of `ExecutionLedger` in app/execution_ledger.py.
use bitcoin_trading_strategy.Shared.{
  ℕ, ◌+◌, String, str_eq, Bool, ◌&&◌, ◌||◌, Option, none, some, List, [], ◌∷◌, ◌++◌, filter,
  is_some, ltb, leb, ◌==◌, not, if◌then◌else◌,
}
use bitcoin_trading_strategy.Shared.Int.{ℤ, pos, negsuc, leb_ℤ}
use bitcoin_trading_strategy.Shared.Result.{
  Result, ok, err, value_error, key_error, runtime_error, map_ok,
}
use bitcoin_trading_strategy.Shared.Action.{Action, pure, lift, gets, raise_if, modify, ◌>>=◌, ◌>>◌}
use bitcoin_trading_strategy.Shared.Sort.{sort_by, text_leb}
use bitcoin_trading_strategy.Shared.Table.{find, update}
use bitcoin_trading_strategy.Shared.Text.{validate_identifier, upper}
use bitcoin_trading_strategy.Protocol.{TradeRequest, intent_value}
use bitcoin_trading_strategy.ExecutionLedger.Status.{
  ExecutionStatus, reserved, submitted, acknowledged, partially_filled, filled, cancelled, rejected,
  status_in, terminal_statuses, allowed_transitions,
}

pub record ExecutionRecord : Type 0 where
  pub event_id : String
  pub signal_id : String
  pub symbol : String
  pub intent : String
  pub quantity : ℤ
  pub status : ExecutionStatus
  pub broker_order_id : Option ℕ
  pub reason : Option String
  pub created_at : ℕ
  pub updated_at : ℕ

-- `ExecutionRecord.terminal`
abbrev pub terminal : ExecutionRecord → Bool
terminal r = status_in r.status terminal_statuses

pub record ExecutionTransition : Type 0 where
  pub transition_id : ℕ
  pub event_id : String
  pub from_status : Option ExecutionStatus
  pub to_status : ExecutionStatus
  pub broker_order_id : Option ℕ
  pub reason : Option String
  pub timestamp : ℕ

-- The tables `execution_records` and `execution_transitions`, and the counter behind the
-- AUTOINCREMENT column. A column that holds an enum's value holds the member.
pub record Ledger : Type 0 where
  pub records : List ExecutionRecord
  pub transitions : List ExecutionTransition
  pub next_transition_id : ℕ

-- `_initialize_database`, on a new file.
abbrev pub empty : Ledger
empty = record { records = []; transitions = []; next_transition_id = 1 }

abbrev pub record_key : ExecutionRecord → String
record_key r = r.event_id

-- `_validate_broker_order_id`
unfoldable pub validate_broker_order_id : Option ℤ → Result (Option ℕ)
validate_broker_order_id none = ok none
validate_broker_order_id (some (pos n)) = ok (some n)
validate_broker_order_id (some (negsuc _)) = err value_error

-- `_normalize_reason`
unfoldable pub normalize_reason : Option String → Result (Option String)
normalize_reason none = ok none
normalize_reason (some text) = map_ok some (validate_identifier text)

-- `get`
unfoldable pub get : String → Action Ledger (Option ExecutionRecord)
get event_id = do
  key ← lift (validate_identifier event_id)
  gets (λ l. find record_key key l.records)

-- `contains`
unfoldable pub contains : String → Action Ledger Bool
unfolding get
contains event_id = do found ← get event_id; pure (is_some found)

-- The INSERT into `execution_transitions`.
unfoldable pub log_transition :
    String
    → Option ExecutionStatus
    → ExecutionStatus
    → Option ℕ
    → Option String
    → ℕ
    → Ledger
    → Ledger
log_transition event_id from to broker reason now l = record l {
  transitions =
      l.transitions
      ++ record {
        transition_id = l.next_transition_id;
        event_id = event_id;
        from_status = from;
        to_status = to;
        broker_order_id = broker;
        reason = reason;
        timestamp = now;
      }
        ∷ [];
  next_transition_id = l.next_transition_id + 1;
}

-- The two INSERTs of `reserve`.
unfoldable pub reserved_ledger : ExecutionRecord → Ledger → Ledger
unfolding log_transition
reserved_ledger r l =
    log_transition r.event_id none reserved none none r.created_at
      (record l { records = l.records ++ r ∷ [] })

-- The transaction of `reserve`: the INSERTs, or the `IntegrityError` of the primary key, rolled
-- back and reported as a `ValueError`.
unfoldable pub insert_record : ExecutionRecord → Action Ledger Unit
insert_record r l =
    if is_some (find record_key r.event_id l.records)
    then (err value_error, l)
    else (ok tt, reserved_ledger r l)

abbrev pub new_record : String → String → String → TradeRequest → ℕ → ExecutionRecord
new_record event_id signal_id symbol request now = record {
  event_id = event_id;
  signal_id = signal_id;
  symbol = symbol;
  intent = intent_value request.intent;
  quantity = request.quantity;
  status = reserved;
  broker_order_id = none;
  reason = none;
  created_at = now;
  updated_at = now;
}

-- What a method returns that reads back the record it wrote.
unfoldable pub written : Option ExecutionRecord → Result ExecutionRecord
written none = err runtime_error
written (some r) = ok r

-- `reserve`
unfoldable pub reserve : ℕ → TradeRequest → Action Ledger ExecutionRecord
unfolding insert_record written
reserve now request = do
  event_id ← lift (validate_identifier request.event_id)
  signal_id ← lift (validate_identifier request.signal_id)
  symbol ← lift (map_ok upper (validate_identifier request.symbol))
  raise_if (leb_ℤ request.quantity (pos 0)) value_error
  insert_record (new_record event_id signal_id symbol request now)
  found ← get event_id
  lift (written found)

abbrev pub or_else : Option ℕ → Option ℕ → Option ℕ
or_else none old = old
or_else (some new) _ = some new

abbrev pub moved_record :
    ExecutionStatus → Option ℕ → Option String → ℕ → ExecutionRecord → ExecutionRecord
moved_record new_status broker reason now r = record r {
  status = new_status;
  broker_order_id = broker;
  reason = reason;
  updated_at = now;
}

-- The transaction of `transition`: the UPDATE and the INSERT.
unfoldable pub write_transition :
    String → ExecutionRecord → ExecutionStatus → Option ℕ → Option String → ℕ → Ledger → Ledger
unfolding log_transition
write_transition key current new_status broker reason now l =
    log_transition key (some current.status) new_status broker reason now (record l {
      records = update record_key key (moved_record new_status broker reason now) l.records;
    })

unfoldable pub known : Option ExecutionRecord → Result ExecutionRecord
known none = err key_error
known (some r) = ok r

-- `transition`
unfoldable pub transition :
    ℕ → String → ExecutionStatus → Option ℤ → Option String → Action Ledger ExecutionRecord
unfolding known write_transition written
transition now event_id new_status broker_order_id reason = do
  key ← lift (validate_identifier event_id)
  broker ← lift (validate_broker_order_id broker_order_id)
  why ← lift (normalize_reason reason)
  found ← get key
  current ← lift (known found)
  raise_if (not (status_in new_status (allowed_transitions current.status))) value_error
  modify (write_transition key current new_status (or_else broker current.broker_order_id) why now)
  updated ← get key
  lift (written updated)

unfoldable pub mark_submitted : ℕ → String → ℤ → Action Ledger ExecutionRecord
mark_submitted now event_id broker_order_id =
    transition now event_id submitted (some broker_order_id) none

unfoldable pub mark_acknowledged : ℕ → String → Action Ledger ExecutionRecord
mark_acknowledged now event_id = transition now event_id acknowledged none none

unfoldable pub mark_partially_filled : ℕ → String → Action Ledger ExecutionRecord
mark_partially_filled now event_id = transition now event_id partially_filled none none

unfoldable pub mark_filled : ℕ → String → Action Ledger ExecutionRecord
mark_filled now event_id = transition now event_id filled none none

unfoldable pub mark_cancelled : ℕ → String → Option String → Action Ledger ExecutionRecord
mark_cancelled now event_id reason = transition now event_id cancelled none reason

-- `mark_rejected`, whose reason is a text: a blank one raises before `transition` is called.
unfoldable pub mark_rejected : ℕ → String → String → Action Ledger ExecutionRecord
mark_rejected now event_id reason = do
  why ← lift (normalize_reason (some reason))
  transition now event_id rejected none why

-- `history`
unfoldable pub history : String → Action Ledger (List ExecutionTransition)
history event_id = do
  key ← lift (validate_identifier event_id)
  gets (λ l.
      sort_by (λ s t. leb s.transition_id t.transition_id)
        (filter (λ t. str_eq t.event_id key) l.transitions))

-- `ORDER BY created_at ASC, event_id ASC`
abbrev pub created_before : ExecutionRecord → ExecutionRecord → Bool
created_before r s =
    ltb r.created_at s.created_at
    || (r.created_at == s.created_at && text_leb r.event_id s.event_id)

-- `all_records`
unfoldable pub all_records : Ledger → List ExecutionRecord
all_records l = sort_by created_before l.records
