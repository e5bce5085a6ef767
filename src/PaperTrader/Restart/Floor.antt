-- ===== src/PaperTrader/Restart/Floor.antt =====
-- apply_durable_order_id_floor of scripts/run_real_eagle_ib_paper_trader.py: the floor and the records.
use bitcoin_trading_strategy.Shared.{
  ℕ, ◌<◌, ◌+◌, ◌≡◌, refl, Option, none, some, List, [], ◌∷◌, max, All, arith,
}
use bitcoin_trading_strategy.Shared.Sort.{All-sort_by_inv}
use bitcoin_trading_strategy.Shared.Result.{ok}
use bitcoin_trading_strategy.ExecutionLedger.{created_before, ExecutionRecord, Ledger, all_records}
use bitcoin_trading_strategy.IbOrderIdAllocator.{
  IbOrderIdAllocator, at_least, ensure_minimum_next_id, validate_order_id,
}
use bitcoin_trading_strategy.PaperTrader.Durable.{highest_id, max_id, apply_durable_order_id_floor}

-- What the reading of the ledger finds of each record holds of each row of the table.
pub All-all_records :
    (P : ExecutionRecord → Type 0) (l : Ledger) → All P (all_records l) → All P l.records
unfolding all_records
All-all_records P l h = All-sort_by_inv created_before P l.records h

abbrev pub IsBelow : ℕ → ExecutionRecord → Type 0
IsBelow n r = (id : ℕ) → r.broker_order_id ≡ some id → id < n

-- What is above the larger of two identifiers is above both.
max_id-above :
    (o m : Option ℕ) (n : ℕ)
    → ((k : ℕ) → max_id o m ≡ some k → k < n)
    → ((id : ℕ) → o ≡ some id → id < n) × ((k : ℕ) → m ≡ some k → k < n)
unfolding max_id
max_id-above none m n h = ((λ id e. ground (arith, e)), h)
max_id-above (some id) none n h = (h, (λ k e. ground (arith, e)))
max_id-above (some id) (some m) n h =
    let b = h (max id m) refl in ((λ i e. ground (arith, b, e)), (λ k e. ground (arith, b, e)))

pub highest_id-above :
    (rs : List ExecutionRecord) (n : ℕ)
    → ((highest : ℕ) → highest_id rs ≡ some highest → highest < n)
    → All (IsBelow n) rs
unfolding highest_id
highest_id-above [] n h = tt
highest_id-above (r ∷ rs) n h =
    let b = max_id-above r.broker_order_id (highest_id rs) n h in (b.0, highest_id-above rs n b.1)

pub floor_none :
    (l : Ledger) (a : IbOrderIdAllocator)
    → highest_id (all_records l) ≡ none
    → apply_durable_order_id_floor l a ≡ (ok none, a)
unfolding apply_durable_order_id_floor
floor_none l a h = rw (h, apply_durable_order_id_floor) refl

pub floor_some :
    (l : Ledger) (a : IbOrderIdAllocator) (highest : ℕ)
    → highest_id (all_records l) ≡ some highest
    → apply_durable_order_id_floor l a
      ≡ (ok (some highest), record a { next_order_id = at_least (highest + 1) a.next_order_id })
unfolding apply_durable_order_id_floor ensure_minimum_next_id validate_order_id
floor_some l a highest h = rw (h, apply_durable_order_id_floor) refl
