-- ===== src/PaperTrader/Hello/Agreement.antt =====
-- What scripts/run_real_eagle_ib_paper_trader.py may conclude from a hello that it admits.
use bitcoin_trading_strategy.Shared.{
  String, ◌≡◌, refl, ◌⊎◌, inl, inr, true, ◌||◌, List, [], ◌∷◌, arith, eq_iff, Bool-cases,
}
use bitcoin_trading_strategy.Shared.Int.{ℤ, pos, neg, eqb_ℤ}
use bitcoin_trading_strategy.Shared.Result.{Result-cases, ok}
use bitcoin_trading_strategy.Shared.Text.{lower}
use bitcoin_trading_strategy.SignalLifecycle.{long_open, short_open}
use bitcoin_trading_strategy.PaperTrader.Policy.{approved_quantity, DurableOpenSignal}
use bitcoin_trading_strategy.PaperTrader.Hello.{
  EaglePosition, field_text, require, require_flat, require_match, require_positioned, direction_of,
  require_eagle_hello_reconciled,
}

-- Eagle's position and the open signal are one, and the broker holds it.
abbrev pub IsSameTrade : EaglePosition → DurableOpenSignal → ℤ → ℤ → Type 0
IsSameTrade p s position q =
    (field_text "signal_id" p ≡ ok s.signal_id)
    × ((d : String) × (field_text "direction" p ≡ ok d)
        × (((position ≡ q) × (s.state ≡ long_open) × (lower d ≡ "long"))
            ⊎ ((position ≡ neg q) × (s.state ≡ short_open) × (lower d ≡ "short"))))

matched :
    (p : EaglePosition) (s : DurableOpenSignal) (position q : ℤ)
    → (eqb_ℤ position (neg q) || eqb_ℤ position q) ≡ true
    → require_match p s position q ≡ ok tt
    → IsSameTrade p s position q
unfolding require_match require direction_of
matched p s position q r h = elim (Result-cases (field_text "signal_id" p)) [
  | inl (x, e) ↦ (let c = rw e at h in ground (arith, c))
  | inr (i, e) ↦ elim (Result-cases (field_text "direction" p)) [
    | inl (x, f) ↦ (let c = rw f at (rw e at h) in ground (arith, c))
    | inr (d, f) ↦
        (let c = rw f at (rw e at h) in
          let same : i ≡ s.signal_id = ground (arith, c, eq_iff i s.signal_id) in
          (
            rw same at e,
            (d, f, ground (arith, c, r, eq_iff (lower d) "long", eq_iff (lower d) "short")),
          ))
  ]
]

approved_same : (q n : ℤ) → approved_quantity q ≡ ok n → n ≡ q
unfolding approved_quantity
approved_same q n h = ground (arith, h)

positioned :
    (relevant : List EaglePosition) (signals : List DurableOpenSignal) (position q : ℤ)
    → require_positioned relevant signals position q ≡ ok tt
    → (p : EaglePosition) × (s : DurableOpenSignal) × (relevant ≡ p ∷ [])
      × (signals ≡ s ∷ [])
      × IsSameTrade p s position q
unfolding require_positioned require
positioned [] ss position q h = ground (arith, h)
positioned (p ∷ p' ∷ ps) ss position q h = ground (arith, h)
positioned (p ∷ []) [] position q h = ground (arith, h)
positioned (p ∷ []) (s ∷ t ∷ ss) position q h = ground (arith, h)
positioned (p ∷ []) (s ∷ []) position q h =
    elim (Bool-cases (eqb_ℤ position (neg q) || eqb_ℤ position q)) [
      | inl r ↦ (p, s, refl, refl, matched p s position q r (rw r at h))
      | inr r ↦ (let c = rw r at h in ground (arith, c))
    ]

-- If require_eagle_hello_reconciled returns, then the broker is flat, there is no open signal and
-- Eagle reports no relevant position, or there is just one open signal and just one relevant position
-- of Eagle, with the same signal identifier, and the broker's position is the quantity, with a signal
-- and a direction that are long, or minus the quantity, with both short.
pub hello_agrees :
    (relevant : List EaglePosition) (position : ℤ) (signals : List DurableOpenSignal) (q : ℤ)
    → require_eagle_hello_reconciled relevant position signals q ≡ ok tt
    → ((position ≡ pos 0) × (relevant ≡ []) × (signals ≡ []))
      ⊎ ((p : EaglePosition) × (s : DurableOpenSignal) × (relevant ≡ p ∷ [])
          × (signals ≡ s ∷ [])
          × IsSameTrade p s position q)
unfolding require_eagle_hello_reconciled require_flat
hello_agrees relevant position signals q h = elim (Result-cases (approved_quantity q)) [
  | inl (x, a) ↦ (let c = rw a at h in ground (arith, c))
  | inr (n, a) ↦ elim (Bool-cases (eqb_ℤ position (pos 0))) [
    | inl z ↦
        (let c = rw z at (rw a at h) in
          inl (ground (arith, z), ground (arith, c), ground (arith, c)))
    | inr z ↦
        (let c = rw (approved_same q n a) at (rw z at (rw a at h)) in
          inr (positioned relevant signals position q c))
  ]
]
