-- ===== src/PaperTrader/Signals.antt =====
-- The open signals of scripts/run_real_eagle_ib_paper_trader.py, and what a request that
-- app/signal_lifecycle_guard.py accepts does to them.
use bitcoin_trading_strategy.Shared.{
  ◌≡◌, refl, inl, inr, Bool, List, [], ◌∷◌, length, filter, arith,
}
use bitcoin_trading_strategy.Shared.Result.{Result-cases, ok}
use bitcoin_trading_strategy.Shared.Sort.{sort_by, text_leb, length-sort_by}
use bitcoin_trading_strategy.SignalLifecycle.{Row, Guard}
use bitcoin_trading_strategy.PaperTrader.Policy.{DurableOpenSignal}
use bitcoin_trading_strategy.PaperTrader.Reconcile.{
  is_open_row, open_signal_of, open_signals_of, load_durable_open_signals,
}

abbrev pub open_rows : Guard → List Row
open_rows g = filter is_open_row g.signal_lifecycle

abbrev by_signal_id : Row → Row → Bool
by_signal_id a b = text_leb a.signal_id b.signal_id

length-open_signals_of :
    (rows : List Row) (ss : List DurableOpenSignal)
    → open_signals_of rows ≡ ok ss
    → length ss ≡ length rows
unfolding open_signals_of
length-open_signals_of [] ss h = ground (arith, h)
length-open_signals_of (r ∷ rows) ss h = elim (Result-cases (open_signal_of r)) [
  | inl (x, p) ↦ (let g = rw p at h in ground (arith, g))
  | inr (s, p) ↦ elim (Result-cases (open_signals_of rows)) [
    | inl (x, q) ↦ (let g = rw q at (rw p at h) in ground (arith, g))
    | inr (rest, q) ↦
        (let g = rw q at (rw p at h) in ground (arith, g, length-open_signals_of rows rest q))
  ]
]

sorted_none : (rows : List Row) → open_signals_of (sort_by by_signal_id rows) ≡ ok [] → rows ≡ []
sorted_none [] h = refl
sorted_none (r ∷ rows) h =
    let m = length-open_signals_of (sort_by by_signal_id (r ∷ rows)) [] h in
    ground (arith, m, length-sort_by by_signal_id (r ∷ rows))

pub load_none : (g : Guard) → load_durable_open_signals g ≡ ok [] → open_rows g ≡ []
unfolding load_durable_open_signals
load_none g h = sorted_none (open_rows g) h

open_signals_of-one :
    (r : Row) (s : DurableOpenSignal)
    → open_signals_of (r ∷ []) ≡ ok (s ∷ [])
    → open_signal_of r ≡ ok s
unfolding open_signals_of
open_signals_of-one r s h = elim (Result-cases (open_signal_of r)) [
  | inl (x, p) ↦ (let g = rw p at h in ground (arith, g))
  | inr (t, p) ↦ (let g = rw p at h in ground (arith, g, p))
]

sorted_one :
    (rows : List Row) (s : DurableOpenSignal)
    → open_signals_of (sort_by by_signal_id rows) ≡ ok (s ∷ [])
    → (r : Row) × (rows ≡ r ∷ []) × (open_signal_of r ≡ ok s)
unfolding sort_by
sorted_one [] s h = let m = length-open_signals_of [] (s ∷ []) h in ground (arith, m)
sorted_one (r ∷ []) s h = (r, refl, open_signals_of-one r s h)
sorted_one (r ∷ x ∷ rows) s h =
    let m = length-open_signals_of (sort_by by_signal_id (r ∷ x ∷ rows)) (s ∷ []) h in
    ground (arith, m, length-sort_by by_signal_id (r ∷ x ∷ rows))

pub load_one :
    (g : Guard) (s : DurableOpenSignal)
    → load_durable_open_signals g ≡ ok (s ∷ [])
    → (r : Row) × (open_rows g ≡ r ∷ []) × (open_signal_of r ≡ ok s)
unfolding load_durable_open_signals
load_one g s h = sorted_one (open_rows g) s h

pub load-none : (g : Guard) → open_rows g ≡ [] → load_durable_open_signals g ≡ ok []
unfolding load_durable_open_signals sort_by open_signals_of
load-none g h = rw h refl

pub load-one :
    (g : Guard) (r : Row) (s : DurableOpenSignal)
    → open_rows g ≡ r ∷ []
    → open_signal_of r ≡ ok s
    → load_durable_open_signals g ≡ ok (s ∷ [])
unfolding load_durable_open_signals sort_by open_signals_of
load-one g r s h p = rw h (rw p refl)
