-- ===== src/PaperTrader/Exits.antt =====
-- The exits of scripts/run_real_eagle_ib_paper_trader.py: which are recovered, and that the other
-- checks let an admitted exit through.
use bitcoin_trading_strategy.Shared.{◌∙◌}
use bitcoin_trading_strategy.Shared.{
  String, ◌≡◌, refl, inl, inr, Bool, true, false, ◌&&◌, not, Option, some, List, [], ◌∷◌, All,
  All-filter, arith,
}
use mathlib.Core.Path.{subst}
use bitcoin_trading_strategy.Shared.Int.{ℤ, neg}
use bitcoin_trading_strategy.Shared.Result.{ok, is_ok}
use bitcoin_trading_strategy.Shared.Table
use bitcoin_trading_strategy.Shared.Table.{find}
use bitcoin_trading_strategy.Shared.Text.{validate_identifier, strip, upper, is_space}
use bitcoin_trading_strategy.Protocol.{TradeIntent, TradeRequest}
use bitcoin_trading_strategy.SignalLifecycle.{
  SignalLifecycleState, closed, accepted, SignalLifecycleDecision, Row, Guard, row_key,
  next_state_for, advance, process, stored_state, state_of_value,
}
use bitcoin_trading_strategy.SignalLifecycle.Invariant.{IsWellFormed}
use bitcoin_trading_strategy.RiskManager.{RiskManager, contains_symbol, is_approved, evaluate}
use bitcoin_trading_strategy.RiskManager.Limits.{evaluate-permitted}
use bitcoin_trading_strategy.IbBrokerClient.{IbBrokerClient}
use bitcoin_trading_strategy.PaperTrader.Policy.{
  mbt, approved_quantity, DurableOpenSignal, raise_unless, only_signal, no_signal, validate_intent,
  validate_trade_request_against_position, evaluate_reserved_exit_recovery, refused,
  signal_decision, closing_decision,
}
use bitcoin_trading_strategy.PaperTrader.Reconcile.{
  is_open_row, open_signal_of, reconcile_broker_and_lifecycle,
}
use bitcoin_trading_strategy.PaperTrader.Signals.{open_rows, load_one}
use bitcoin_trading_strategy.PaperTrader.Accepted.{is_opening}
use bitcoin_trading_strategy.PaperTrader.Cycle.{reconciled, closing_valid, ClosedBy, row_id}

-- For a quantity in the approved range, evaluate_reserved_exit_recovery allows a recovery if and only
-- if the operator authorised it, the request closes a position, and
-- validate_trade_request_against_position returns on the same position and open signals.
pub recovery-eq-policy :
    (request : TradeRequest) (position : ℤ) (signals : List DurableOpenSignal) (authorized : Bool)
    (q : ℤ)
    → approved_quantity q ≡ ok q
    → (evaluate_reserved_exit_recovery request position signals authorized q).allowed ≡ (
        authorized
        && not (is_opening request.intent)
        && is_ok (validate_trade_request_against_position request position signals q))
unfolding approved_quantity validate_trade_request_against_position validate_intent raise_unless
    only_signal no_signal evaluate_reserved_exit_recovery refused signal_decision closing_decision
    neg
recovery-eq-policy request position [] authorized q a = ground (arith, a)
recovery-eq-policy request position (s ∷ []) authorized q a = ground (arith, a)
recovery-eq-policy request position (s ∷ t ∷ ss) authorized q a = ground (arith, a)

-- The only open row is the one that its key finds.
find_only :
    (g : Guard) (r : Row)
    → IsWellFormed g
    → open_rows g ≡ r ∷ []
    → find row_key r.signal_id g.signal_lifecycle ≡ some r
find_only g r w h =
    (subst (All (λ r. find row_key r.signal_id g.signal_lifecycle ≡ some r)) h (
      All-filter _ is_open_row g.signal_lifecycle
        (Table.find_each row_key g.signal_lifecycle w.keyed))).0

stored_open :
    (r : Row) (s : DurableOpenSignal)
    → open_signal_of r ≡ ok s
    → stored_state (some r) ≡ ok (some s.state)
unfolding open_signal_of state_of_value stored_state
stored_open r s h = ground (arith, h)

next_closed :
    (i : TradeIntent) (position : ℤ) (state : SignalLifecycleState) (q : ℤ)
    → ClosedBy i position state q
    → next_state_for (some state) i ≡ some closed
unfolding next_state_for
next_closed i position state q (inl (a, p, b)) = rw (a, b) refl
next_closed i position state q (inr (a, p, b)) = rw (a, b) refl

process_closes :
    (request : TradeRequest) (g : Guard) (r : Row) (state : SignalLifecycleState) (e : String)
    → validate_identifier request.signal_id ≡ ok r.signal_id
    → validate_identifier request.event_id ≡ ok e
    → find row_key r.signal_id g.signal_lifecycle ≡ some r
    → stored_state (some r) ≡ ok (some state)
    → next_state_for (some state) request.intent ≡ some closed
    → (d : SignalLifecycleDecision) × ((process request g).0 ≡ ok d)
      × (d.status ≡ accepted)
      × (d.next_state ≡ some closed)
unfolding process advance
process_closes request g r state e v w f s n =
    rw v (rw w (rw f (rw s (rw n (_, refl, refl, refl)))))

allowed_mbt :
    (m : RiskManager) (request : TradeRequest)
    → request.symbol ≡ mbt
    → contains_symbol mbt m.allowed_symbols ≡ true
    → contains_symbol (upper (strip request.symbol)) m.allowed_symbols ≡ true
unfolding strip is_space upper
allowed_mbt m request s h = rw s h

risk_approves :
    (m : RiskManager) (request : TradeRequest) (position : ℤ) (state : SignalLifecycleState) (q : ℤ)
    → approved_quantity q ≡ ok q
    → request.quantity ≡ q
    → ClosedBy request.intent position state q
    → contains_symbol (upper (strip request.symbol)) m.allowed_symbols ≡ true
    → is_approved (evaluate m request position) ≡ true
unfolding approved_quantity neg
risk_approves m request position state q a size c s =
    evaluate-permitted m request position ∙ ground (arith, a, size, c, s)

-- After a reconciliation that returned, a closing request that the policy admits is let through by
-- the other two checks: the risk manager, whatever its gates and limits, approves it where MBT is an
-- allowed symbol, and the lifecycle guard accepts it and closes its signal. The lifecycle table is
-- well formed, the request's signal identifier is stripped, and its event identifier is not blank.
pub closing_passes :
    (client : IbBrokerClient) (g : Guard) (local_symbol : Option String) (q position : ℤ)
    (signals : List DurableOpenSignal) (request : TradeRequest) (m : RiskManager) (e : String)
    → IsWellFormed g
    → validate_identifier request.signal_id ≡ ok request.signal_id
    → validate_identifier request.event_id ≡ ok e
    → contains_symbol mbt m.allowed_symbols ≡ true
    → is_opening request.intent ≡ false
    → reconcile_broker_and_lifecycle client g local_symbol q ≡ ok (position, signals)
    → validate_trade_request_against_position request position signals q ≡ ok tt
    → (is_approved (evaluate m request position) ≡ true)
      × ((d : SignalLifecycleDecision) × ((process request g).0 ≡ ok d)
          × (d.status ≡ accepted)
          × (d.next_state ≡ some closed))
closing_passes client g local_symbol q position signals request m e w n ev mbt_allowed o h v =
    let r = reconciled client g local_symbol q position signals h in
    let (s, one, same, symbol, size, c) = closing_valid request position signals q o v in
    let (row, rows, stored) = load_one g s (rw one at r.loaded) in
    let key = row_id row s stored in
    (
      risk_approves m request position s.state q r.approved size c
          (allowed_mbt m request symbol mbt_allowed),
      process_closes request g row s.state e (rw (key, same) n) ev (find_only g row w rows)
          (stored_open row s stored) (next_closed request.intent position s.state q c),
    )
