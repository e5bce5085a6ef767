-- ===== src/IbBrokerClient/Snapshot.antt =====
-- What a snapshot of app/ib_broker_client.py holds, from its beginning to its end.
use bitcoin_trading_strategy.Shared.{
  String, ◌≡◌, refl, sym, inl, inr, true, false, Option, none, List, [], ◌∷◌, ◌++◌, Bool-cases,
  if◌then◌else◌,
}
use mathlib.Core.List.{append_assoc, append-nil}
use bitcoin_trading_strategy.Shared.{ap}
use bitcoin_trading_strategy.Shared.Int.{ℤ, pos, eqb_ℤ}
use bitcoin_trading_strategy.Shared.Decimal.{Decimal}
use bitcoin_trading_strategy.Shared.Result.{Result, Result-cases, ok, err, runtime_error}
use bitcoin_trading_strategy.Shared.Text.{validate_identifier}
use bitcoin_trading_strategy.BrokerPositions.{RawBrokerPosition}
use bitcoin_trading_strategy.IbBrokerClient.{
  IbBrokerClient, PositionContract, begin_position_snapshot, normalize_quantity, select_symbol,
  receive_quantity, receive_position, finish_position_snapshot, get_raw_positions, read_string,
  read_optional_string, position,
}

-- The arguments of a position callback that the code reads.
pub record Callback : Type 0 where
  pub account : String
  pub contract : PositionContract
  pub quantity : Option Decimal

-- The position that a callback reports: none where it is not valid, or flat.
abbrev pub reported_symbol : ℤ → Result String → List RawBrokerPosition
reported_symbol quantity (err _) = []
reported_symbol quantity (ok symbol) =
    record { symbol = symbol; quantity = quantity; signal_id = none } ∷ []

abbrev pub reported_quantity : PositionContract → Result ℤ → List RawBrokerPosition
reported_quantity contract (err _) = []
reported_quantity contract (ok quantity) =
    if eqb_ℤ quantity (pos 0)
    then []
    else reported_symbol quantity
        (select_symbol (read_optional_string contract.local_symbol) (read_string contract.symbol))

abbrev pub reported_by : Callback → Result String → List RawBrokerPosition
reported_by c (err _) = []
reported_by c (ok _) = reported_quantity c.contract (normalize_quantity c.quantity)

abbrev pub reported : List Callback → List RawBrokerPosition
reported [] = []
reported (c ∷ cs) = reported_by c (validate_identifier c.account) ++ reported cs

-- The callbacks, whether they return or raise.
abbrev pub heard : List Callback → IbBrokerClient → IbBrokerClient
heard [] s = s
heard (c ∷ cs) s = heard cs (position c.account c.contract c.quantity s).1

collecting : List RawBrokerPosition → IbBrokerClient
collecting ps = record { snapshot_in_progress = true; snapshot_complete = false; positions = ps }

nothing : (ps : List RawBrokerPosition) → collecting ps ≡ collecting (ps ++ [])
nothing ps = ap collecting (sym (append-nil ps))

position-collecting :
    (c : Callback) (ps : List RawBrokerPosition)
    → (position c.account c.contract c.quantity (collecting ps)).1
      ≡ collecting (ps ++ reported_by c (validate_identifier c.account))
unfolding position receive_position receive_quantity collecting
position-collecting c ps = elim (Result-cases (validate_identifier c.account)) [
  | inl (x, e) ↦ rw e (nothing ps)
  | inr (a, e) ↦ elim (Result-cases (normalize_quantity c.quantity)) [
    | inl (x, f) ↦ rw e (rw f (nothing ps))
    | inr (q, f) ↦ elim (Bool-cases (eqb_ℤ q (pos 0))) [
      | inl z ↦ rw e (rw f (rw z (nothing ps)))
      | inr z ↦
          elim (Result-cases (
            select_symbol (read_optional_string c.contract.local_symbol)
              (read_string c.contract.symbol))) [
                | inl (x, g) ↦ rw e (rw f (rw z (rw g (nothing ps))))
                | inr (s, g) ↦ rw e (rw f (rw z (rw g refl)))
              ]
    ]
  ]
]

heard-collecting :
    (cs : List Callback) (ps : List RawBrokerPosition)
    → heard cs (collecting ps) ≡ collecting (ps ++ reported cs)
heard-collecting [] ps = nothing ps
heard-collecting (c ∷ cs) ps =
    rw (position-collecting c ps)
      (rw (heard-collecting cs _) (ap collecting (append_assoc ps _ (reported cs))))

-- A snapshot that began on any client, and heard any callbacks, valid or not: get_raw_positions
-- raises RuntimeError until finish_position_snapshot, which returns, and from then on returns the
-- positions that the valid callbacks reported and that are not flat, in order, and none from before.
pub snapshot-reported :
    (s : IbBrokerClient) (cs : List Callback)
    → let s' = heard cs (begin_position_snapshot s).1 in
      (get_raw_positions s' ≡ err runtime_error)
      × ((finish_position_snapshot s').0 ≡ ok tt)
      × (get_raw_positions (finish_position_snapshot s').1 ≡ ok (reported cs))
unfolding begin_position_snapshot get_raw_positions finish_position_snapshot collecting
snapshot-reported s cs = rw (heard-collecting cs []) (refl, refl, refl)
