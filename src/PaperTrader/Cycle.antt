-- ===== src/PaperTrader/Cycle.antt =====
-- One trade of scripts/run_real_eagle_ib_paper_trader.py, from one reconciliation to the next.
use bitcoin_trading_strategy.Shared.{
  String, ◌≡◌, refl, ◌⊎◌, inl, inr, true, false, Option, List, [], ◌∷◌, arith, eq_iff, Bool-cases,
}
use bitcoin_trading_strategy.Shared.Int.{ℤ, pos, neg, ◌+ℤ◌}
use bitcoin_trading_strategy.Shared.Result.{Result-cases, ok}
use bitcoin_trading_strategy.Shared.Text.{validate_identifier}
use bitcoin_trading_strategy.Protocol.{
  TradeIntent, buy_to_open, sell_to_open, buy_to_close, sell_to_close, TradeRequest,
}
use bitcoin_trading_strategy.SignalLifecycle.{
  SignalLifecycleState, long_open, short_open, accepted, SignalLifecycleDecision, Row, Guard,
  new_row, process, state_value,
}
use bitcoin_trading_strategy.RiskManager.{position_delta}
use bitcoin_trading_strategy.IbBrokerClient.{IbBrokerClient}
use bitcoin_trading_strategy.PaperTrader.Policy.{
  mbt, approved_quantity, DurableOpenSignal, raise_unless, only_signal, no_signal, validate_intent,
  validate_trade_request_against_position, expected_position_after_trade,
}
use bitcoin_trading_strategy.PaperTrader.Reconcile.{
  get_mbt_position, require_no_other_broker_positions, open_signal_of, load_durable_open_signals,
  require_agreement, require_in_range, reconcile_broker_and_lifecycle,
}
use bitcoin_trading_strategy.PaperTrader.Signals.{load_none, load_one, load-none, load-one}
use bitcoin_trading_strategy.PaperTrader.Accepted.{
  Acceptance, acceptance, opened_state, is_opening, accepted_opening, accepted_closing,
}

-- The parts of a reconciliation that returned.
pub record Reconciled (client : IbBrokerClient) (g : Guard) (local_symbol : Option String)
    (q position : ℤ) (signals : List DurableOpenSignal) : Type 0 where
  pub approved : approved_quantity q ≡ ok q
  pub alone : require_no_other_broker_positions client local_symbol ≡ ok tt
  pub held : get_mbt_position client local_symbol ≡ ok position
  pub in_range : require_in_range q position ≡ ok tt
  pub loaded : load_durable_open_signals g ≡ ok signals
  pub agreed : require_agreement q position signals ≡ ok tt

approved_same : (q n : ℤ) → approved_quantity q ≡ ok n → n ≡ q
unfolding approved_quantity
approved_same q n h = ground (arith, h)

pub reconciled :
    (client : IbBrokerClient) (g : Guard) (local_symbol : Option String) (q position : ℤ)
    (signals : List DurableOpenSignal)
    → reconcile_broker_and_lifecycle client g local_symbol q ≡ ok (position, signals)
    → Reconciled client g local_symbol q position signals
unfolding reconcile_broker_and_lifecycle
reconciled client g local_symbol q position signals h = elim (Result-cases (approved_quantity q)) [
  | inl (x, a) ↦ (let c = rw a at h in ground (arith, c))
  | inr (n, a) ↦ elim (Result-cases (require_no_other_broker_positions client local_symbol)) [
    | inl (x, b) ↦ (let c = rw b at (rw a at h) in ground (arith, c))
    | inr (tt, b) ↦ elim (Result-cases (get_mbt_position client local_symbol)) [
      | inl (x, p) ↦ (let c = rw p at (rw b at (rw a at h)) in ground (arith, c))
      | inr (at_broker, p) ↦ elim (Result-cases (require_in_range n at_broker)) [
        | inl (x, r) ↦ (let c = rw r at (rw p at (rw b at (rw a at h))) in ground (arith, c))
        | inr (tt, r) ↦ elim (Result-cases (load_durable_open_signals g)) [
          | inl (x, l) ↦
              (let c = rw l at (rw r at (rw p at (rw b at (rw a at h)))) in ground (arith, c))
          | inr (ss, l) ↦ elim (Result-cases (require_agreement n at_broker ss)) [
            | inl (x, t) ↦
                (let c = rw t at (rw l at (rw r at (rw p at (rw b at (rw a at h))))) in
                  ground (arith, c))
            | inr (tt, t) ↦
                (let c = rw t at (rw l at (rw r at (rw p at (rw b at (rw a at h))))) in
                  let m : at_broker ≡ position = ground (arith, c) in
                  let s : ss ≡ signals = ground (arith, c) in
                  let e = approved_same q n a in
                  record {
                    approved = rw e at a;
                    alone = b;
                    held = rw m at p;
                    in_range = rw m at (rw e at r);
                    loaded = rw s at l;
                    agreed = rw s at (rw m at (rw e at t));
                  })
          ]
        ]
      ]
    ]
  ]
]

pub reconcile-of :
    {client : IbBrokerClient} {g : Guard} {local_symbol : Option String} {q position : ℤ}
    {signals : List DurableOpenSignal}
    → Reconciled client g local_symbol q position signals
    → reconcile_broker_and_lifecycle client g local_symbol q ≡ ok (position, signals)
unfolding reconcile_broker_and_lifecycle
reconcile-of r =
    rw r.approved (rw r.alone (rw r.held (rw r.in_range (rw r.loaded (rw r.agreed refl)))))

-- What the policy on a request checks.
pub opening_valid :
    (request : TradeRequest) (position : ℤ) (signals : List DurableOpenSignal) (q : ℤ)
    → is_opening request.intent ≡ true
    → validate_trade_request_against_position request position signals q ≡ ok tt
    → (position ≡ pos 0) × (signals ≡ []) × (request.quantity ≡ q)
unfolding validate_trade_request_against_position validate_intent raise_unless no_signal
opening_valid request position signals q o h =
    (ground (arith, o, h), ground (arith, o, h), ground (arith, o, h))

-- The position and the state that a closing needs.
abbrev pub ClosedBy : TradeIntent → ℤ → SignalLifecycleState → ℤ → Type 0
ClosedBy i position state q =
    ((i ≡ sell_to_close) × (position ≡ q) × (state ≡ long_open))
    ⊎ ((i ≡ buy_to_close) × (position ≡ neg q) × (state ≡ short_open))

pub closing_valid :
    (request : TradeRequest) (position : ℤ) (signals : List DurableOpenSignal) (q : ℤ)
    → is_opening request.intent ≡ false
    → validate_trade_request_against_position request position signals q ≡ ok tt
    → (s : DurableOpenSignal) × (signals ≡ s ∷ [])
      × (s.signal_id ≡ request.signal_id)
      × (request.symbol ≡ mbt)
      × (request.quantity ≡ q)
      × ClosedBy request.intent position s.state q
unfolding validate_trade_request_against_position validate_intent raise_unless only_signal
closing_valid request position [] q o h = ground (arith, o, h)
closing_valid request position (s ∷ []) q o h = (
  s,
  refl,
  ground (arith, o, h, eq_iff s.signal_id request.signal_id),
  ground (arith, h, eq_iff request.symbol mbt),
  ground (arith, h),
  ground (arith, o, h),
)
closing_valid request position (s ∷ t ∷ ss) q o h = ground (arith, o, h)

signal_of : String → String → SignalLifecycleState → DurableOpenSignal
signal_of k e state = record { signal_id = k; state = state; last_event_id = e }

open_signal_of-new :
    (k e : String) (i : TradeIntent)
    → open_signal_of (new_row k e (opened_state i)) ≡ ok (signal_of k e (opened_state i))
unfolding open_signal_of state_value signal_of
open_signal_of-new k e buy_to_open = refl
open_signal_of-new k e sell_to_open = refl
open_signal_of-new k e buy_to_close = refl
open_signal_of-new k e sell_to_close = refl

opened_in_range :
    (i : TradeIntent) (q : ℤ)
    → is_opening i ≡ true
    → require_in_range q (pos 0 +ℤ position_delta i q) ≡ ok tt
unfolding require_in_range position_delta ◌+ℤ◌ neg
opened_in_range i q o = ground (arith, o)

opened_agrees :
    (i : TradeIntent) (q : ℤ) (k e : String)
    → is_opening i ≡ true
    → approved_quantity q ≡ ok q
    → require_agreement q (pos 0 +ℤ position_delta i q) (signal_of k e (opened_state i) ∷ [])
      ≡ ok tt
unfolding require_agreement approved_quantity position_delta ◌+ℤ◌ neg signal_of
opened_agrees i q k e o a = ground (arith, o, a)

flat_after_closing :
    (i : TradeIntent) (position q : ℤ) (state : SignalLifecycleState)
    → ClosedBy i position state q
    → position +ℤ position_delta i q ≡ pos 0
unfolding position_delta ◌+ℤ◌ neg
flat_after_closing i position q state c = ground (arith, c)

expected_open :
    (request : TradeRequest)
    → is_opening request.intent ≡ true
    → expected_position_after_trade request
      ≡ pos 0 +ℤ position_delta request.intent request.quantity
unfolding expected_position_after_trade position_delta ◌+ℤ◌ neg
expected_open request o = ground (arith, o)

expected_flat :
    (request : TradeRequest)
    → is_opening request.intent ≡ false
    → expected_position_after_trade request ≡ pos 0
unfolding expected_position_after_trade
expected_flat request o = ground (arith, o)

pub row_id : (r : Row) (s : DurableOpenSignal) → open_signal_of r ≡ ok s → r.signal_id ≡ s.signal_id
unfolding open_signal_of
row_id r s h = ground (arith, h)

flat_in_range : (q : ℤ) → require_in_range q (pos 0) ≡ ok tt
unfolding require_in_range
flat_in_range q = ground arith

flat_agrees : (q : ℤ) → require_agreement q (pos 0) [] ≡ ok tt
unfolding require_agreement
flat_agrees q = refl

module _ (client client' : IbBrokerClient) (g g' : Guard) (local_symbol : Option String)
    (q position : ℤ) (signals : List DurableOpenSignal) (request : TradeRequest) where
  -- The state in which the next reconciliation succeeds.
  abbrev pub IsReconciled : Type 0
  IsReconciled =
      let next = position +ℤ position_delta request.intent request.quantity in
      (expected_position_after_trade request ≡ next)
      × ((signals' : List DurableOpenSignal) × (reconcile_broker_and_lifecycle client' g'
              local_symbol q
            ≡ ok (next, signals')))

  opening_reconciles :
      is_opening request.intent ≡ true
      → Reconciled client g local_symbol q position signals
      → validate_trade_request_against_position request position signals q ≡ ok tt
      → Acceptance request g g'
      → require_no_other_broker_positions client' local_symbol ≡ ok tt
      → get_mbt_position client' local_symbol
        ≡ ok (position +ℤ position_delta request.intent request.quantity)
      → IsReconciled
  opening_reconciles o r v a alone held =
      let (flat, none_open, size) = opening_valid request position signals q o v in
      let (k, e, rows) =
        accepted_opening request g g' a o (load_none g (rw none_open at r.loaded)) in
      let s = signal_of k e (opened_state request.intent) in
      let loaded = load-one g' _ s rows (open_signal_of-new k e request.intent) in
      rw flat (
        expected_open request o,
        (
          s ∷ [],
          reconcile-of (record {
            approved = r.approved;
            alone = alone;
            held = rw flat at held;
            in_range = rw size (opened_in_range request.intent q o);
            loaded = loaded;
            agreed = rw size (opened_agrees request.intent q k e o r.approved);
          }),
        ),
      )

  closing_reconciles :
      is_opening request.intent ≡ false
      → validate_identifier request.signal_id ≡ ok request.signal_id
      → Reconciled client g local_symbol q position signals
      → validate_trade_request_against_position request position signals q ≡ ok tt
      → Acceptance request g g'
      → require_no_other_broker_positions client' local_symbol ≡ ok tt
      → get_mbt_position client' local_symbol
        ≡ ok (position +ℤ position_delta request.intent request.quantity)
      → IsReconciled
  closing_reconciles o n r v a alone held =
      let (s, one, same, _, size, c) = closing_valid request position signals q o v in
      let (row, rows, stored) = load_one g s (rw one at r.loaded) in
      let key = row_id row s stored in
      let flat : position +ℤ position_delta request.intent request.quantity ≡ pos 0 =
        rw size (flat_after_closing request.intent position q s.state c) in
      let gone = accepted_closing request g g' row a o rows (rw (key, same) n) in
      rw flat (
        expected_flat request o,
        (
          [],
          reconcile-of (record {
            approved = r.approved;
            alone = alone;
            held = rw flat at held;
            in_range = flat_in_range q;
            loaded = load-none g' gone;
            agreed = flat_agrees q;
          }),
        ),
      )

-- After a reconciliation that returned, a request that the policy admits, that the lifecycle guard
-- then accepts, and that the broker fills in full, with no other position, the next reconciliation
-- returns too: the position is the one that expected_position_after_trade names, and the open signals
-- agree with it. The request's signal identifier is stripped.
pub trade_reconciles :
    (client client' : IbBrokerClient) (g g' : Guard) (local_symbol : Option String) (q position : ℤ)
    (signals : List DurableOpenSignal) (request : TradeRequest) (d : SignalLifecycleDecision)
    → validate_identifier request.signal_id ≡ ok request.signal_id
    → reconcile_broker_and_lifecycle client g local_symbol q ≡ ok (position, signals)
    → validate_trade_request_against_position request position signals q ≡ ok tt
    → process request g ≡ (ok d, g')
    → d.status ≡ accepted
    → require_no_other_broker_positions client' local_symbol ≡ ok tt
    → get_mbt_position client' local_symbol
      ≡ ok (position +ℤ position_delta request.intent request.quantity)
    → IsReconciled client client' g g' local_symbol q position signals request
trade_reconciles client client' g g' local_symbol q position signals request d n h v p a alone
      held =
    let r = reconciled client g local_symbol q position signals h in
    let acc = acceptance request g g' d p a in
    elim (Bool-cases (is_opening request.intent)) [
      | inl o ↦
          opening_reconciles client client' g g' local_symbol q position signals request o r v acc
            alone held
      | inr o ↦
          closing_reconciles client client' g g' local_symbol q position signals request o n r v acc
            alone held
    ]
