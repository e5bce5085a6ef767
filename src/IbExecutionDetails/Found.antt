-- ===== src/IbExecutionDetails/Found.antt =====
-- The record of an order, after a move that keeps its order identifier.
use bitcoin_trading_strategy.Shared.{
  ℕ, String, str_eq, ◌≡◌, refl, true, Option, some, List, [], ◌∷◌, map, filter-map, All, All-map,
  inl, inr, Bool-cases, arith, eq_iff, if◌then◌else◌,
}
use mathlib.Core.Option
use bitcoin_trading_strategy.Shared.Result.{ok, map_ok}
use bitcoin_trading_strategy.Shared.Sort.{sort_by, All-sort_by, sort_by-map}
use bitcoin_trading_strategy.Shared.Table.{find, update, IsKeyed}
use bitcoin_trading_strategy.Shared.Table
use bitcoin_trading_strategy.ExecutionLedger.{
  ExecutionStatus, ExecutionRecord, Ledger, record_key, moved_record, write_transition, all_records,
  created_before,
}
use bitcoin_trading_strategy.IbOrderStatus.{
  has_order_id, only_match, find_record_by_broker_order_id,
}

-- What an UPDATE of one row does to each row.
abbrev touched : String → (ExecutionRecord → ExecutionRecord) → ExecutionRecord → ExecutionRecord
touched k f r = if str_eq r.event_id k then f r else r

update-map :
    (k : String) (f : ExecutionRecord → ExecutionRecord) (rs : List ExecutionRecord)
    → update record_key k f rs ≡ map (touched k f) rs
unfolding update
update-map k f [] = refl
update-map k f (r ∷ rs) = rw (update-map k f rs) refl

only_match-map :
    (g : ExecutionRecord → ExecutionRecord) (rs : List ExecutionRecord)
    → only_match (map g rs) ≡ map_ok (Option.map g) (only_match rs)
unfolding only_match
only_match-map g [] = refl
only_match-map g (r ∷ []) = refl
only_match-map g (r ∷ s ∷ rs) = refl

module _ (k : String) (s : ExecutionStatus) (w : Option String) (now order_id : ℕ) where
  -- A move of the record with the order identifier.
  abbrev pub move : ExecutionRecord → ExecutionRecord
  move = moved_record s (some order_id) w now

  touched-created_before :
      (x y : ExecutionRecord)
      → created_before (touched k move x) (touched k move y) ≡ created_before x y
  touched-created_before x y = elim (Bool-cases (str_eq x.event_id k)) [
    | inl p ↦ elim (Bool-cases (str_eq y.event_id k)) [ inl q ↦ simp (p, q) | inr q ↦ simp (p, q) ]
    | inr p ↦ elim (Bool-cases (str_eq y.event_id k)) [ inl q ↦ simp (p, q) | inr q ↦ simp (p, q) ]
  ]

  touched-has_order_id :
      (x r : ExecutionRecord) (l : Ledger)
      → find record_key k l.records ≡ some r
      → r.broker_order_id ≡ some order_id
      → find record_key x.event_id l.records ≡ some x
      → has_order_id order_id (touched k move x) ≡ has_order_id order_id x
  touched-has_order_id x r l f b g = elim (Bool-cases (str_eq x.event_id k)) [
    | inl p ↦
        (let same : x ≡ r = ground (arith, eq_iff x.event_id k, f, g) in
          let carries : x.broker_order_id ≡ some order_id = cc in ground (arith, p, carries))
    | inr p ↦ simp p
  ]

  -- The search by order identifier finds the moved record.
  pub find-move :
      (l : Ledger) (r : ExecutionRecord)
      → IsKeyed record_key l.records
      → find_record_by_broker_order_id order_id l ≡ ok (some r)
      → find record_key k l.records ≡ some r
      → r.broker_order_id ≡ some order_id
      → find_record_by_broker_order_id order_id (write_transition k r s (some order_id) w now l)
        ≡ ok (some (move r))
  unfolding find_record_by_broker_order_id all_records write_transition
  find-move l r keyed m f b =
      let rows : All (λ x. has_order_id order_id (touched k move x) ≡ has_order_id order_id x)
          (sort_by created_before l.records) =
        All-sort_by created_before _ l.records (
          All-map (λ x. find record_key x.event_id l.records ≡ some x) _ l.records
            (λ x g. touched-has_order_id x r l f b g)
            (Table.find_each record_key l.records keyed)) in
      let hit : str_eq r.event_id k ≡ true =
        (eq_iff r.event_id k).1 (Table.key-find record_key k r l.records f) in
      rw (update-map k move l.records) (
        rw (sort_by-map created_before (touched k move) touched-created_before l.records) (
          rw (filter-map (has_order_id order_id) (touched k move) _ rows)
            (rw (only_match-map (touched k move) _) (rw m (simp hit)))))
