-- ===== src/IbOrderIdAllocator.antt =====
-- app/ib_order_id_allocator.py: the order identifiers that BTS gives out.
mod Tests
pub mod Fresh
use bitcoin_trading_strategy.Shared.{
  ℕ, ◌+◌, Bool, true, false, ◌&&◌, Option, none, some, leb, ltb, if◌then◌else◌,
}
use bitcoin_trading_strategy.Shared.Int.{ℤ, pos, negsuc}
use bitcoin_trading_strategy.Shared.Result.{Result, ok, err, value_error, runtime_error}
use bitcoin_trading_strategy.Shared.Action.{Action, lift, modify, ◌>>=◌, ◌>>◌}

pub record IbOrderIdAllocator : Type 0 where
  pub initialized : Bool
  pub next_order_id : Option ℕ
  pub highest_allocated_order_id : Option ℕ
  pub highest_observed_order_id : Option ℕ

-- `__init__`
abbrev pub new_allocator : IbOrderIdAllocator
new_allocator = record {
  initialized = false;
  next_order_id = none;
  highest_allocated_order_id = none;
  highest_observed_order_id = none;
}

-- `_validate_order_id`
unfoldable pub validate_order_id : ℤ → Result ℕ
validate_order_id (pos n) = ok n
validate_order_id (negsuc _) = err value_error

-- `max(candidate, floor)`, where there is a floor.
abbrev pub raised_to : Option ℕ → ℕ → ℕ
raised_to none candidate = candidate
raised_to (some floor) candidate = if leb floor candidate then candidate else floor

abbrev pub after_id : Option ℕ → Option ℕ
after_id none = none
after_id (some n) = some (n + 1)

-- The candidate of `initialize`, in the order of its three tests.
abbrev pub first_free : ℕ → IbOrderIdAllocator → ℕ
first_free id a =
    raised_to (after_id a.highest_allocated_order_id)
      (raised_to a.next_order_id (raised_to (after_id a.highest_observed_order_id) id))

-- `initialize`
unfoldable pub initialize : ℤ → Action IbOrderIdAllocator (Unit {0})
initialize next_valid_id = do
  id ← lift (validate_order_id next_valid_id)
  modify (λ a. record a { next_order_id = some (first_free id a); initialized = true })

-- `allocate`
unfoldable pub allocate : Action IbOrderIdAllocator ℕ
allocate a = elim a.next_order_id [
  | none ↦ (err runtime_error, a)
  | some id ↦
      if a.initialized
      then (ok id, record a { highest_allocated_order_id = some id; next_order_id = some (id + 1) })
      else (err runtime_error, a)
]

abbrev pub observed_with : ℕ → Option ℕ → Option ℕ
observed_with id none = some id
observed_with id (some old) = if ltb old id then some id else some old

abbrev pub next_past : ℕ → Bool → Option ℕ → Option ℕ
next_past id initialized none = none
next_past id initialized (some next) =
    if initialized && leb next id then some (id + 1) else some next

-- `observe_order_id`
unfoldable pub observe_order_id : ℤ → Action IbOrderIdAllocator (Unit {0})
observe_order_id order_id = do
  id ← lift (validate_order_id order_id)
  modify (λ a. record a {
    highest_observed_order_id = observed_with id a.highest_observed_order_id;
    next_order_id = next_past id a.initialized a.next_order_id;
  })

abbrev pub at_least : ℕ → Option ℕ → Option ℕ
at_least minimum none = none
at_least minimum (some next) = if ltb next minimum then some minimum else some next

-- `ensure_minimum_next_id`
unfoldable pub ensure_minimum_next_id : ℤ → Action IbOrderIdAllocator (Unit {0})
ensure_minimum_next_id minimum_next_id = do
  minimum ← lift (validate_order_id minimum_next_id)
  modify (λ a. record a { next_order_id = at_least minimum a.next_order_id })
