-- ===== src/IbOrderStatus/Stored.antt =====
-- The record that app/ib_order_status_transport.py finds by its order identifier is the one that
-- app/execution_ledger.py finds by its event.
use bitcoin_trading_strategy.Shared.{
  ℕ, ◌≡◌, inl, inr, some, List, [], ◌∷◌, All, All-append, All-filter,
}
use mathlib.Core.Path.{subst}
use bitcoin_trading_strategy.Shared.Result.{ok}
use bitcoin_trading_strategy.Shared.Table
use bitcoin_trading_strategy.Shared.Table.{find}
use bitcoin_trading_strategy.Shared.Sort.{All-sort_by}
use bitcoin_trading_strategy.Shared.Text
use bitcoin_trading_strategy.Shared.Text.{validate_identifier}
use bitcoin_trading_strategy.ExecutionLedger.{
  ExecutionRecord, Ledger, empty, record_key, all_records, created_before, reserved_ledger,
  write_transition, moved_record,
}
use bitcoin_trading_strategy.ExecutionLedger.Outcomes.{reserve_cases, transition_cases}
use bitcoin_trading_strategy.ExecutionLedger.Audit.{empty-IsAudited}
use bitcoin_trading_strategy.ExecutionLedger.Runs.{
  Call, reserve_call, transition_call, after, run, run-IsAudited,
}
use bitcoin_trading_strategy.IbOrderStatus.{
  has_order_id, only_match, find_record_by_broker_order_id,
}

-- The identifier of a record is stripped and not empty.
abbrev pub IsNormal : ExecutionRecord → Type 0
IsNormal r = validate_identifier r.event_id ≡ ok r.event_id

pub after-IsNormal :
    (c : Call) (l : Ledger) → All IsNormal l.records → All IsNormal (after c l).records
after-IsNormal (reserve_call now request) l h = elim (reserve_cases now request l) [
  | inl (x, p) ↦ rw (p, after) h
  | inr m ↦
      rw (m.outcome, after)
        (unfold reserved_ledger in
          All-append IsNormal l.records _ h
            (Text.validate_identifier_idem request.event_id m.key m.key_valid, tt))
]
after-IsNormal (transition_call now e s b w) l h = elim (transition_cases now e s b w l) [
  | inl (x, p) ↦ rw (p, after) h
  | inr m ↦
      rw (m.outcome, after)
        (unfold write_transition in
          Table.All-update record_key IsNormal m.key (moved_record s _ m.why now) l.records
            (λ r p. p) h)
]

run-IsNormal :
    (cs : List Call) (l : Ledger) → All IsNormal l.records → All IsNormal (run cs l).records
unfolding run
run-IsNormal [] l h = h
run-IsNormal (c ∷ cs) l h = run-IsNormal cs (after c l) (after-IsNormal c l h)

pub only_match-All :
    (P : ExecutionRecord → Type 0) (rs : List ExecutionRecord) (r : ExecutionRecord)
    → All P rs
    → only_match rs ≡ ok (some r)
    → P r
unfolding only_match
only_match-All P [] r a h = cc
only_match-All P (x ∷ []) r a h = (let same : x ≡ r = cc in subst P same a.0)
only_match-All P (x ∷ y ∷ rs) r a h = cc

pub All-matched :
    (P : ExecutionRecord → Type 0) (order_id : ℕ) (l : Ledger) (r : ExecutionRecord)
    → All P l.records
    → find_record_by_broker_order_id order_id l ≡ ok (some r)
    → P r
unfolding find_record_by_broker_order_id all_records
All-matched P order_id l r a h =
    only_match-All P _ r
      (All-filter P (has_order_id order_id) _ (All-sort_by created_before P l.records a)) h

module _ (cs : List Call) (order_id : ℕ) (r : ExecutionRecord)
    (matched : find_record_by_broker_order_id order_id (run cs empty) ≡ ok (some r)) where
  pub run_stored : find record_key r.event_id (run cs empty).records ≡ some r
  run_stored =
      All-matched (λ s. find record_key s.event_id (run cs empty).records ≡ some s) order_id
        (run cs empty) r
        (Table.find_each record_key (run cs empty).records
          (run-IsAudited cs empty empty-IsAudited).keyed)
        matched

  pub run_normal : validate_identifier r.event_id ≡ ok r.event_id
  run_normal = All-matched IsNormal order_id (run cs empty) r (run-IsNormal cs empty tt) matched
