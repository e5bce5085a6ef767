-- ===== src/IbTradingReadiness.antt =====
-- app/ib_trading_readiness.py and ib_api_ready.py: the gate before an order is sent to the broker.
mod Tests
use bitcoin_trading_strategy.Shared.{
  ℕ, ◌≡◌, refl, inl, inr, Bool, true, false, ◌&&◌, not, Option, none, some, List, [], ◌∷◌, ◌++◌,
  arith, is_some, Bool-cases, Option-cases, if◌then◌else◌,
}
use bitcoin_trading_strategy.Shared.Int.{ℤ}
use bitcoin_trading_strategy.Shared.Result.{Result, ok, err, runtime_error}
use bitcoin_trading_strategy.Shared.Action.{Action, lift, modify, ◌>>=◌}
use bitcoin_trading_strategy.TradingControls.{TradingControls}
use bitcoin_trading_strategy.KillSwitch.{KillSwitch}
use bitcoin_trading_strategy.IbOrderIdAllocator.{IbOrderIdAllocator, allocate, validate_order_id}
use bitcoin_trading_strategy.BrokerPositions.{RawBrokerPosition}
use bitcoin_trading_strategy.IbBrokerClient.{IbBrokerClient, get_raw_positions}

pub record IbApiReady : Type 0 where
  pub ready : Bool
  pub next_valid_order_id : Option ℕ

-- `IBApiReady.__init__` and `reset`
abbrev pub new_api_ready : IbApiReady
new_api_ready = record { ready = false; next_valid_order_id = none }

unfoldable pub reset_ready : IbApiReady → IbApiReady
reset_ready r = new_api_ready

-- `record_next_valid_id`
unfoldable pub record_next_valid_id : ℤ → Action IbApiReady (Unit {0})
record_next_valid_id order_id = do
  id ← lift (validate_order_id order_id)
  modify (λ _. record { ready = true; next_valid_order_id = some id })

pub data IbReadinessStatus : Type 0 where
  ready not_ready : IbReadinessStatus

pub data IbReadinessFailure : Type 0 where
  trading_paused kill_switch_active api_not_ready order_id_not_ready : IbReadinessFailure
  position_snapshot_incomplete positions_not_reconciled execution_uncertainty : IbReadinessFailure

-- The objects that the gate looks at.
pub record Gate : Type 0 where
  pub api_ready : IbApiReady
  pub order_id_allocator : IbOrderIdAllocator
  pub broker_client : IbBrokerClient
  pub trading_controls : TradingControls
  pub kill_switch : KillSwitch

pub record IbTradingReadinessSnapshot : Type 0 where
  pub status : IbReadinessStatus
  pub ready : Bool
  pub trading_paused : Bool
  pub kill_switch_active : Bool
  pub api_ready : Bool
  pub order_id_ready : Bool
  pub position_snapshot_complete : Bool
  pub positions_reconciled : Bool
  pub execution_state_clear : Bool
  pub failures : List IbReadinessFailure

abbrev pub failure_if : Bool → IbReadinessFailure → List IbReadinessFailure
failure_if c failure = if c then failure ∷ [] else []

unfoldable pub order_id_ready : IbOrderIdAllocator → Bool
order_id_ready a = a.initialized && is_some a.next_order_id

-- The list that `evaluate` fills, in its order.
unfoldable pub failures_of : Gate → Bool → Bool → List IbReadinessFailure
unfolding order_id_ready
failures_of g positions_reconciled execution_state_clear =
    failure_if g.trading_controls.paused trading_paused
    ++ (failure_if g.kill_switch.active kill_switch_active
        ++ (failure_if (not g.api_ready.ready) api_not_ready
            ++ (failure_if (not (order_id_ready g.order_id_allocator)) order_id_not_ready
                ++ (failure_if (not g.broker_client.snapshot_complete) position_snapshot_incomplete
                    ++ (failure_if (not positions_reconciled) positions_not_reconciled
                        ++ failure_if (not execution_state_clear) execution_uncertainty)))))

abbrev is_nil : List IbReadinessFailure → Bool
is_nil [] = true
is_nil (_ ∷ _) = false

-- `evaluate`
unfoldable pub evaluate : Gate → Bool → Bool → IbTradingReadinessSnapshot
unfolding failures_of
evaluate g positions_reconciled execution_state_clear =
    let failures = failures_of g positions_reconciled execution_state_clear in
    record {
      status = if is_nil failures then ready else not_ready;
      ready = is_nil failures;
      trading_paused = g.trading_controls.paused;
      kill_switch_active = g.kill_switch.active;
      api_ready = g.api_ready.ready;
      order_id_ready = order_id_ready g.order_id_allocator;
      position_snapshot_complete = g.broker_client.snapshot_complete;
      positions_reconciled = positions_reconciled;
      execution_state_clear = execution_state_clear;
      failures = failures;
    }

-- `require_ready`
unfoldable pub require_ready : Gate → Bool → Bool → Result IbTradingReadinessSnapshot
unfolding evaluate
require_ready g positions_reconciled execution_state_clear =
    let result = evaluate g positions_reconciled execution_state_clear in
    if result.ready then ok result else err runtime_error

-- What an order needs: a running trader, no emergency, an identifier, and the broker's positions.
abbrev pub IsOpenGate : Gate → Bool → Bool → Type 0
IsOpenGate g positions_reconciled execution_state_clear =
    (g.trading_controls.paused ≡ false)
    × (g.kill_switch.active ≡ false)
    × (g.api_ready.ready ≡ true)
    × (positions_reconciled ≡ true)
    × (execution_state_clear ≡ true)
    × ((id : ℕ) × ((allocate g.order_id_allocator).0 ≡ ok id))
    × ((ps : List RawBrokerPosition) × (get_raw_positions g.broker_client ≡ ok ps))

allocates : (a : IbOrderIdAllocator) → order_id_ready a ≡ true → (id : ℕ) × ((allocate a).0 ≡ ok id)
unfolding order_id_ready allocate
allocates a h = elim (Option-cases a.next_order_id) [
  | inl n ↦ (let c = rw n at h in ground (arith, c))
  | inr (id, n) ↦ (id, ground (arith, n, h))
]

snapshot_read :
    (c : IbBrokerClient)
    → c.snapshot_complete ≡ true
    → (ps : List RawBrokerPosition) × (get_raw_positions c ≡ ok ps)
unfolding get_raw_positions
snapshot_read c h = (c.positions, rw h refl)

-- If require_ready returns, then trading is not paused, the kill switch is off, the connection is
-- ready, the caller said that positions are reconciled and no execution is uncertain, and the next
-- calls that an order makes return: allocate gives an identifier, and get_raw_positions gives the
-- broker's positions.
pub require_ready_opens :
    (g : Gate) (positions_reconciled execution_state_clear : Bool) (s : IbTradingReadinessSnapshot)
    → require_ready g positions_reconciled execution_state_clear ≡ ok s
    → IsOpenGate g positions_reconciled execution_state_clear
unfolding require_ready evaluate failures_of
require_ready_opens g positions_reconciled execution_state_clear s h =
    let id : order_id_ready g.order_id_allocator ≡ true = ground (arith, h) in
    let complete : g.broker_client.snapshot_complete ≡ true = ground (arith, h) in
    (
      ground (arith, h),
      ground (arith, h),
      ground (arith, h),
      ground (arith, h),
      ground (arith, h),
      allocates g.order_id_allocator id,
      snapshot_read g.broker_client complete,
    )
