-- ===== src/BrokerPositions/Raw.antt =====
-- What app/broker_position_adapter.py keeps of the raw positions.
use mathlib.Core.List.{map-append}
use bitcoin_trading_strategy.BrokerPositions.{open_position}
use bitcoin_trading_strategy.BrokerPositions.{open_position}
use bitcoin_trading_strategy.Shared.Text.{is_space}
use bitcoin_trading_strategy.Shared.{
  String, str_eq, ◌≡◌, refl, inl, inr, Bool, true, false, not, Option, none, some, List, [], ◌∷◌,
  ◌++◌, map, filter, arith, Bool-cases, if◌then◌else◌,
}
use bitcoin_trading_strategy.Shared.Int.{ℤ, pos, neg, abs, ltb_ℤ, eqb_ℤ, int_laws}
use bitcoin_trading_strategy.Shared.Result.{Result-cases, ok}
use bitcoin_trading_strategy.Shared.Text.{validate_identifier, strip, upper}
use bitcoin_trading_strategy.BrokerPositions.{
  RawBrokerPosition, BrokerPosition, validate_position_symbol, validate_side,
  validate_open_quantity, validate_signal_id, new_position, side_of, adapt_one, adapt,
}

-- The raw position that a normalised one stands for: a short side is a negative quantity.
abbrev pub raw_of : BrokerPosition → RawBrokerPosition
raw_of p = record {
  symbol = p.symbol;
  quantity = if str_eq p.side "LONG" then p.quantity else neg p.quantity;
  signal_id = p.signal_id;
}

-- The texts of a raw position, normalised.
abbrev strip_id : Option String → Option String
strip_id none = none
strip_id (some s) = some (strip s)

abbrev pub normal_raw : RawBrokerPosition → RawBrokerPosition
normal_raw r = record {
  symbol = upper (strip r.symbol);
  quantity = r.quantity;
  signal_id = strip_id r.signal_id;
}

abbrev pub is_open : RawBrokerPosition → Bool
is_open r = not (eqb_ℤ r.quantity (pos 0))

positive : (q : ℤ) → ltb_ℤ (pos 0) q ≡ true → pos (abs q) ≡ q
positive q h = ground arith

signed : (q : ℤ) → ltb_ℤ (pos 0) q ≡ false → neg (pos (abs q)) ≡ q
signed q h = grind (int_laws, h)

validate_side-side_of : (q : ℤ) → validate_side (side_of q) ≡ ok (side_of q)
unfolding validate_side validate_identifier strip upper is_space
validate_side-side_of q = elim (Bool-cases (ltb_ℤ (pos 0) q)) [
  | inl p ↦ rw p refl
  | inr p ↦ rw p refl
]

quantity_back :
    (q : ℤ)
    → eqb_ℤ q (pos 0) ≡ false
    → (if str_eq (side_of q) "LONG" then pos (abs q) else neg (pos (abs q))) ≡ q
quantity_back q h = elim (Bool-cases (ltb_ℤ (pos 0) q)) [
  | inl p ↦ rw p (positive q p)
  | inr p ↦ rw p (signed q p)
]

validate_signal_id-strip : (o i : Option String) → validate_signal_id o ≡ ok i → i ≡ strip_id o
unfolding validate_signal_id validate_identifier
validate_signal_id-strip none i h = ground (arith, h)
validate_signal_id-strip (some s) i h = ground (arith, h)

new_position-raw :
    (r : RawBrokerPosition) (p : BrokerPosition)
    → eqb_ℤ r.quantity (pos 0) ≡ false
    → new_position r.symbol (side_of r.quantity) (pos (abs r.quantity)) r.signal_id ≡ ok p
    → raw_of p ≡ normal_raw r
unfolding new_position validate_position_symbol validate_open_quantity validate_identifier
new_position-raw r p n h = elim (Result-cases (validate_signal_id r.signal_id)) [
  | inl (x, e) ↦ (let g = rw e at (rw (validate_side-side_of r.quantity) at h) in ground (arith, g))
  | inr (i, e) ↦
      (let g = rw e at (rw (validate_side-side_of r.quantity) at h) in
        ground (arith, g, quantity_back r.quantity n, validate_signal_id-strip r.signal_id i e))
]

adapt_one-raw :
    (r : RawBrokerPosition) (ps : List BrokerPosition)
    → adapt_one r ≡ ok ps
    → map raw_of ps ≡ (if is_open r then normal_raw r ∷ [] else [])
unfolding adapt_one open_position
adapt_one-raw r ps h = elim (Result-cases (validate_identifier r.symbol)) [
  | inl (x, e) ↦ (let g = rw e at h in ground (arith, g))
  | inr (s, e) ↦ elim (Bool-cases (eqb_ℤ r.quantity (pos 0))) [
    | inl n ↦ (let g = rw n at (rw e at h) in ground (arith, n, g))
    | inr n ↦
        elim (Result-cases
          (new_position r.symbol (side_of r.quantity) (pos (abs r.quantity)) r.signal_id)) [
            | inl (x, t) ↦ (let g = rw t at (rw n at (rw e at h)) in ground (arith, g))
            | inr (p, t) ↦
                (let g = rw t at (rw n at (rw e at h)) in
                  ground (arith, g, n, new_position-raw r p n t))
          ]
  ]
]

-- If adapt returns, then reading the sides of its positions back as signs gives the raw positions
-- that are not flat, in order, with the symbol stripped and in capitals and the signal identifier
-- stripped.
pub raw_of-adapt :
    (rs : List RawBrokerPosition) (ps : List BrokerPosition)
    → adapt rs ≡ ok ps
    → map raw_of ps ≡ map normal_raw (filter is_open rs)
unfolding adapt
raw_of-adapt [] ps h = ground (arith, h)
raw_of-adapt (r ∷ rs) ps h = elim (Result-cases (adapt_one r)) [
  | inl (x, p) ↦ (let g = rw p at h in ground (arith, g))
  | inr (q, p) ↦ elim (Result-cases (adapt rs)) [
    | inl (x, t) ↦ (let g = rw t at (rw p at h) in ground (arith, g))
    | inr (qs, t) ↦
        (let g = rw t at (rw p at h) in
          let e : ps ≡ q ++ qs = ground (arith, g) in
          rw e (
            rw (map-append raw_of q qs) (
              rw (adapt_one-raw r q p) (
                rw (raw_of-adapt rs qs t)
                  (elim (Bool-cases (is_open r)) [ inl c ↦ rw c refl | inr c ↦ rw c refl ])))))
  ]
]
