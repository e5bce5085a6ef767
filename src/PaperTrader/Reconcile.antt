-- ===== src/PaperTrader/Reconcile.antt =====
-- scripts/run_real_eagle_ib_paper_trader.py: the broker's position and the open signals, and their
-- reconciliation.
use bitcoin_trading_strategy.Shared.{
  String, str_eq, Bool, ◌&&◌, ◌||◌, not, Option, none, some, List, [], ◌∷◌, filter, if◌then◌else◌,
}
use bitcoin_trading_strategy.Shared.Int.{ℤ, pos, neg, ◌+ℤ◌, eqb_ℤ}
use bitcoin_trading_strategy.Shared.Result.{Result, ok, err, runtime_error, map_ok, ◌>>=◌, ◌>>◌}
use bitcoin_trading_strategy.Shared.Sort.{sort_by, text_leb}
use bitcoin_trading_strategy.Shared.Text.{validate_identifier, strip, upper}
use bitcoin_trading_strategy.SignalLifecycle.{long_open, short_open, Row, Guard}
use bitcoin_trading_strategy.RiskManager.{contains_symbol}
use bitcoin_trading_strategy.BrokerPositions.{RawBrokerPosition}
use bitcoin_trading_strategy.IbBrokerClient.{IbBrokerClient, get_raw_positions}
use bitcoin_trading_strategy.PaperTrader.Policy.{
  mbt, approved_quantity, DurableOpenSignal, same_state,
}

-- The symbols of the approved contract: its root, and its local symbol where that is given.
unfoldable pub allowed_symbols_of : Option String → Result (List String)
allowed_symbols_of none = ok (mbt ∷ [])
allowed_symbols_of (some local_symbol) =
    map_ok (λ normalized. mbt ∷ upper normalized ∷ []) (validate_identifier local_symbol)

abbrev pub is_approved_position : List String → RawBrokerPosition → Bool
is_approved_position allowed p = contains_symbol (upper (strip p.symbol)) allowed

-- The loop of `get_mbt_position`.
unfoldable pub total_position : List String → ℤ → List RawBrokerPosition → ℤ
total_position allowed total [] = total
total_position allowed total (p ∷ ps) =
    total_position allowed (if is_approved_position allowed p then total +ℤ p.quantity else total)
      ps

-- `get_mbt_position`
unfoldable pub get_mbt_position : IbBrokerClient → Option String → Result ℤ
get_mbt_position client local_symbol = do
  allowed ← allowed_symbols_of local_symbol
  positions ← get_raw_positions client
  ok (total_position allowed (pos 0) positions)

-- The loop of `require_no_other_broker_positions`.
unfoldable pub require_approved : List String → List RawBrokerPosition → Result (Unit {0})
require_approved allowed [] = ok tt
require_approved allowed (p ∷ ps) =
    if is_approved_position allowed p then require_approved allowed ps else err runtime_error

-- `require_no_other_broker_positions`
unfoldable pub require_no_other_broker_positions :
    IbBrokerClient → Option String → Result (Unit {0})
require_no_other_broker_positions client local_symbol = do
  allowed ← allowed_symbols_of local_symbol
  positions ← get_raw_positions client
  require_approved allowed positions

-- `WHERE state IN ('LongOpen', 'ShortOpen')`
unfoldable pub is_open_row : Row → Bool
is_open_row row = str_eq row.state "LongOpen" || str_eq row.state "ShortOpen"

unfoldable pub open_signal_of : Row → Result DurableOpenSignal
open_signal_of row =
    if str_eq row.state "LongOpen"
    then ok
        (record { signal_id = row.signal_id; state = long_open; last_event_id = row.last_event_id })
    else if str_eq row.state "ShortOpen"
    then ok (record {
      signal_id = row.signal_id;
      state = short_open;
      last_event_id = row.last_event_id;
    })
    else err runtime_error

-- The loop of `load_durable_open_signals`.
unfoldable pub open_signals_of : List Row → Result (List DurableOpenSignal)
open_signals_of [] = ok []
open_signals_of (row ∷ rows) = do s ← open_signal_of row; rest ← open_signals_of rows; ok (s ∷ rest)

-- `load_durable_open_signals`
unfoldable pub load_durable_open_signals : Guard → Result (List DurableOpenSignal)
load_durable_open_signals g =
    open_signals_of
      (sort_by (λ a b. text_leb a.signal_id b.signal_id) (filter is_open_row g.signal_lifecycle))

-- The comparison of the position and the open signals.
unfoldable pub require_agreement : ℤ → ℤ → List DurableOpenSignal → Result (Unit {0})
require_agreement expected_quantity position [] =
    if eqb_ℤ position (pos 0) then ok tt else err runtime_error
require_agreement expected_quantity position (s ∷ []) =
    if eqb_ℤ position (pos 0)
    then err runtime_error
    else if eqb_ℤ position expected_quantity && not (same_state s.state long_open)
    then err runtime_error
    else if eqb_ℤ position (neg expected_quantity) && not (same_state s.state short_open)
    then err runtime_error
    else ok tt
require_agreement expected_quantity position (_ ∷ _ ∷ _) = err runtime_error

unfoldable pub require_in_range : ℤ → ℤ → Result (Unit {0})
require_in_range expected_quantity position =
    if eqb_ℤ position (neg expected_quantity)
      || eqb_ℤ position (pos 0)
      || eqb_ℤ position expected_quantity
    then ok tt
    else err runtime_error

-- `reconcile_broker_and_lifecycle`
unfoldable pub reconcile_broker_and_lifecycle :
    IbBrokerClient → Guard → Option String → ℤ → Result (ℤ × List DurableOpenSignal)
unfolding require_in_range
reconcile_broker_and_lifecycle client g local_symbol expected_quantity = do
  q ← approved_quantity expected_quantity
  require_no_other_broker_positions client local_symbol
  position ← get_mbt_position client local_symbol
  require_in_range q position
  open_signals ← load_durable_open_signals g
  require_agreement q position open_signals
  ok (position, open_signals)
