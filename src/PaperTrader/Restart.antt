-- ===== src/PaperTrader/Restart.antt =====
-- A start of scripts/run_real_eagle_ib_paper_trader.py on a ledger that an earlier run left.
pub mod Floor
mod OnlyExit
use bitcoin_trading_strategy.PaperTrader.Restart.Floor.{
  All-all_records, IsBelow, highest_id-above, floor_none, floor_some,
}
use bitcoin_trading_strategy.PaperTrader.Restart.OnlyExit.{IsOnlyExit, found_exit}
use bitcoin_trading_strategy.PaperTrader.Durable.{unsubmitted}
use bitcoin_trading_strategy.PaperTrader.Durable.{exit_intent_of}
use bitcoin_trading_strategy.PaperTrader.Policy.{mbt, raise_unless}
use bitcoin_trading_strategy.Shared.{
  ℕ, ◌+◌, ◌≡◌, refl, sym, ap, not, ◌≤◌, ◌⊎◌, inl, inr, Bool, true, false, Option, none, some, List,
  [], ◌∷◌, filter, ltb, All, arith, eq_iff, Bool-cases, Option-cases, if◌then◌else◌,
}
use bitcoin_trading_strategy.Shared.Int.{ℤ}
use bitcoin_trading_strategy.Shared.Result.{Result-cases, ok}
use bitcoin_trading_strategy.Protocol.{buy_to_close, sell_to_close}
use bitcoin_trading_strategy.SignalLifecycle.{long_open, short_open, Guard}
use bitcoin_trading_strategy.ExecutionLedger.{
  reserved, filled, cancelled, rejected, terminal, ExecutionRecord, Ledger, all_records,
}
use bitcoin_trading_strategy.EventStore.{EventStore, has_processed_event}
use bitcoin_trading_strategy.IbOrderIdAllocator.{IbOrderIdAllocator, allocate}
use bitcoin_trading_strategy.PaperTrader.Policy.{DurableOpenSignal}
use bitcoin_trading_strategy.PaperTrader.Reconcile.{load_durable_open_signals}
use bitcoin_trading_strategy.PaperTrader.Durable.{
  require_execution_state_clear, highest_id, apply_durable_order_id_floor, ReservedExitRecord,
  find_reserved_exit, require_matching_exit, check_exit, check_start,
}

-- On an allocator that has its first identifier from the broker, apply_durable_order_id_floor returns
-- what highest_id finds in the ledger, and the identifier that allocate then gives out is above those
-- of all rows of the ledger, and not below the one that was next before.
pub floor_above_durable :
    (l : Ledger) (a : IbOrderIdAllocator) (next : ℕ)
    → a.initialized ≡ true
    → a.next_order_id ≡ some next
    → let (floor, a') = apply_durable_order_id_floor l a in
      (floor ≡ ok (highest_id (all_records l)))
      × ((id : ℕ) × ((allocate a').0 ≡ ok id) × (next ≤ id) × All (IsBelow id) l.records)
unfolding allocate
floor_above_durable l a next i n = elim (Option-cases (highest_id (all_records l))) [
  | inl h ↦ rw (floor_none l a h) (
      let below = highest_id-above (all_records l) next (λ k e. ground (arith, h, e)) in
      (
        ap ok (sym h),
        (next, ground (arith, i, n), omega arith, All-all_records (IsBelow next) l below),
      ))
  | inr (highest, h) ↦ rw (floor_some l a highest h) (
      let raised = if ltb next (highest + 1) then highest + 1 else next in
      let below = highest_id-above (all_records l) raised (λ k e. ground (arith, h, e)) in
      (
        ap ok (sym h),
        (raised, ground (arith, i, n), ground arith, All-all_records (IsBelow raised) l below),
      ))
]

-- The direction of an exit, and its signal.
abbrev pub Matches : ReservedExitRecord → ℤ → DurableOpenSignal → Type 0
Matches exit quantity s =
    (exit.symbol ≡ mbt)
    × (exit.quantity ≡ quantity)
    × (exit.signal_id ≡ s.signal_id)
    × (exit.broker_order_id ≡ none)
    × (((exit.intent ≡ sell_to_close) × (s.state ≡ long_open))
        ⊎ ((exit.intent ≡ buy_to_close) × (s.state ≡ short_open)))

matching :
    (exit : ReservedExitRecord) (quantity : ℤ) (signals : List DurableOpenSignal)
    → require_matching_exit exit quantity signals ≡ ok tt
    → (s : DurableOpenSignal) × (signals ≡ s ∷ []) × Matches exit quantity s
unfolding require_matching_exit exit_intent_of raise_unless unsubmitted
matching exit quantity [] h = ground (arith, h)
matching exit quantity (s ∷ []) h =
    let m : Matches exit quantity s = (
      ground (arith, h, eq_iff exit.symbol mbt),
      ground (arith, h),
      ground (arith, h, eq_iff s.signal_id exit.signal_id),
      ground (arith, h),
      ground (arith, h),
    ) in
    (s, refl, m)
matching exit quantity (s ∷ t ∷ ss) h = ground (arith, h)

-- A record of an order that has come to its end.
abbrev pub IsSettled : ExecutionRecord → Type 0
IsSettled r = (r.status ≡ filled) ⊎ (r.status ≡ cancelled) ⊎ (r.status ≡ rejected)

terminal-IsSettled : (r : ExecutionRecord) → terminal r ≡ true → IsSettled r
terminal-IsSettled r h = ground arith

unsettled_none :
    (rs : List ExecutionRecord) → filter (λ r. not (terminal r)) rs ≡ [] → All IsSettled rs
unsettled_none [] h = tt
unsettled_none (r ∷ rs) h = elim (Bool-cases (terminal r)) [
  | inl t ↦ (terminal-IsSettled r t, unsettled_none rs (ground (arith, h, t)))
  | inr t ↦ ground (arith, h, t)
]

clear-IsSettled : (l : Ledger) → require_execution_state_clear l ≡ ok tt → All IsSettled l.records
unfolding require_execution_state_clear
clear-IsSettled l h =
    All-all_records IsSettled l (unsettled_none (all_records l) (ground (arith, h)))

-- How a start may go on.
abbrev pub IsSafeStart : Ledger → EventStore → Guard → Bool → ℤ → Bool → Type 0
IsSafeStart l store g recover quantity waits =
    ((waits ≡ false) × All IsSettled l.records)
    ⊎ ((waits ≡ false) × (recover ≡ true) × ((exit : ReservedExitRecord) × IsOnlyExit l exit))
    ⊎ ((waits ≡ true)
        × (recover ≡ false)
        × ((exit : ReservedExitRecord) × IsOnlyExit l exit
            × ((has_processed_event exit.event_id store).0 ≡ ok false)
            × ((s : DurableOpenSignal) × (load_durable_open_signals g ≡ ok (s ∷ []))
                × Matches exit quantity s)))

-- If the checks of a start return, then every row of the ledger is FILLED, CANCELLED or REJECTED, or
-- one record is reserved, it is a closing, and the operator asked for its recovery, or the start
-- waits for Eagle's replay. It waits only where the operator did not ask and one record is reserved,
-- a closing without an order identifier, whose event is not processed yet, and which has the symbol
-- MBT, the quantity of the configuration, and the signal and the direction of the only open signal.
pub start_fails_closed :
    (l : Ledger) (store : EventStore) (g : Guard) (recover : Bool) (quantity : ℤ) (waits : Bool)
    → check_start l store g recover quantity ≡ ok waits
    → IsSafeStart l store g recover quantity waits
unfolding check_start check_exit raise_unless
start_fails_closed l store g recover quantity waits h = elim (Result-cases (find_reserved_exit l)) [
  | inl (x, p) ↦ (let c = rw p at h in ground (arith, c))
  | inr (none, p) ↦ elim (Result-cases (require_execution_state_clear l)) [
    | inl (x, q) ↦ (let c = rw q at (rw p at h) in ground (arith, c))
    | inr (tt, q) ↦ (let c = rw q at (rw p at h) in inl (ground (arith, c), clear-IsSettled l q))
  ]
  | inr (some exit, p) ↦ elim (Bool-cases recover) [
    | inl r ↦
        (let c = rw r at (rw p at h) in
          inr (inl (ground (arith, c), r, (exit, found_exit l exit p))))
    | inr r ↦ elim (Result-cases (has_processed_event exit.event_id store).0) [
      | inl (x, q) ↦ (let c = rw q at (rw r at (rw p at h)) in ground (arith, c))
      | inr (true, q) ↦ (let c = rw q at (rw r at (rw p at h)) in ground (arith, c))
      | inr (false, q) ↦ elim (Result-cases (load_durable_open_signals g)) [
        | inl (x, t) ↦ (let c = rw t at (rw q at (rw r at (rw p at h))) in ground (arith, c))
        | inr (ss, t) ↦ elim (Result-cases (require_matching_exit exit quantity ss)) [
          | inl (x, u) ↦
              (let c = rw u at (rw t at (rw q at (rw r at (rw p at h)))) in ground (arith, c))
          | inr (tt, u) ↦
              (let c = rw u at (rw t at (rw q at (rw r at (rw p at h)))) in
                let (s, one, m) = matching exit quantity ss u in
                inr
                  (inr (ground (arith, c), r, (exit, found_exit l exit p, q, (s, rw one at t, m)))))
        ]
      ]
    ]
  ]
]
