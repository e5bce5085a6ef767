-- ===== src/PaperTrader/Restart/OnlyExit.antt =====
-- find_reserved_exit of scripts/run_real_eagle_ib_paper_trader.py: the exit and its record.
use bitcoin_trading_strategy.PaperTrader.Policy.{is_closing}
use bitcoin_trading_strategy.Protocol.{intent_of_value}
use bitcoin_trading_strategy.Shared.{
  ◌≡◌, refl, inl, inr, true, some, List, [], ◌∷◌, filter, arith, Bool-cases,
}
use bitcoin_trading_strategy.Shared.Result.{Result-cases, ok}
use bitcoin_trading_strategy.Protocol.{TradeIntent}
use bitcoin_trading_strategy.ExecutionLedger.{
  reserved, same_status, ExecutionRecord, Ledger, all_records,
}
use bitcoin_trading_strategy.PaperTrader.Durable.{
  ReservedExitRecord, with_intents, all_closing, only_exit, find_reserved_exit,
}

abbrev reserved_records : Ledger → List ExecutionRecord
reserved_records l = filter (λ r. same_status r.status reserved) (all_records l)

-- The one reserved record that an exit was read from, field by field.
pub record IsOnlyExit (l : Ledger) (exit : ReservedExitRecord) : Type 0 where
  pub source : ExecutionRecord
  pub only : filter (λ r. same_status r.status reserved) (all_records l) ≡ source ∷ []
  pub event : exit.event_id ≡ source.event_id
  pub signal : exit.signal_id ≡ source.signal_id
  pub symbol : exit.symbol ≡ source.symbol
  pub quantity : exit.quantity ≡ source.quantity
  pub order : exit.broker_order_id ≡ source.broker_order_id
  pub intent : intent_of_value source.intent ≡ ok exit.intent
  pub closes : is_closing exit.intent ≡ true

with_intents-one :
    (rs : List ExecutionRecord) (found : List (ExecutionRecord × TradeIntent))
    (exit : ReservedExitRecord)
    → with_intents rs ≡ ok found
    → all_closing found ≡ true
    → only_exit found ≡ ok (some exit)
    → (r : ExecutionRecord) × (rs ≡ r ∷ [])
      × (exit.event_id ≡ r.event_id)
      × (exit.signal_id ≡ r.signal_id)
      × (exit.symbol ≡ r.symbol)
      × (exit.quantity ≡ r.quantity)
      × (exit.broker_order_id ≡ r.broker_order_id)
      × (intent_of_value r.intent ≡ ok exit.intent)
      × (is_closing exit.intent ≡ true)
unfolding with_intents only_exit
with_intents-one [] found exit h c o = ground (arith, h, o)
with_intents-one (r ∷ []) found exit h c o = elim (Result-cases (intent_of_value r.intent)) [
  | inl (x, p) ↦ (let g = rw p at h in ground (arith, g))
  | inr (i, p) ↦
      (let g = rw p at h in
        let e : found ≡ (r, i) ∷ [] = ground (arith, g) in
        let q = rw e at o in
        let k = rw e at c in
        let same : exit.intent ≡ i = ground (arith, q) in
        (
          r,
          refl,
          ground (arith, q),
          ground (arith, q),
          ground (arith, q),
          ground (arith, q),
          ground (arith, q),
          rw same p,
          rw same (ground (arith, k)),
        ))
]
with_intents-one (r ∷ s ∷ rs) found exit h c o = elim (Result-cases (intent_of_value r.intent)) [
  | inl (x, p) ↦ (let g = rw p at h in ground (arith, g))
  | inr (i, p) ↦ elim (Result-cases (intent_of_value s.intent)) [
    | inl (x, q) ↦ (let g = rw q at (rw p at h) in ground (arith, g))
    | inr (j, q) ↦ elim (Result-cases (with_intents rs)) [
      | inl (x, t) ↦ (let g = rw t at (rw q at (rw p at h)) in ground (arith, g))
      | inr (rest, t) ↦
          (let g = rw t at (rw q at (rw p at h)) in
            let e : found ≡ (r, i) ∷ (s, j) ∷ rest = ground (arith, g) in
            let z = rw e at o in ground (arith, z))
    ]
  ]
]

pub found_exit :
    (l : Ledger) (exit : ReservedExitRecord)
    → find_reserved_exit l ≡ ok (some exit)
    → IsOnlyExit l exit
unfolding find_reserved_exit
found_exit l exit h = elim (Result-cases (with_intents (reserved_records l))) [
  | inl (x, p) ↦ (let g = rw p at h in ground (arith, g))
  | inr (found, p) ↦ elim (Bool-cases (all_closing found)) [
    | inl c ↦
        (let o : only_exit found ≡ ok (some exit) = rw c at (rw p at h) in
          let (r, only, e, s, y, n, b, i, k) =
            with_intents-one (reserved_records l) found exit p c o in
          record {
            source = r;
            only = only;
            event = e;
            signal = s;
            symbol = y;
            quantity = n;
            order = b;
            intent = i;
            closes = k;
          })
    | inr c ↦ (let g = rw c at (rw p at h) in ground (arith, g))
  ]
]
