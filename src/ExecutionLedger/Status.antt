-- ===== src/ExecutionLedger/Status.antt =====
-- The statuses of app/execution_ledger.py and their table of transitions.
use bitcoin_trading_strategy.Shared.{
  ℕ, ◌≡◌, ◌↔◌, Bool, true, false, ◌||◌, List, [], ◌∷◌, arith, ◌==◌,
}

pub data ExecutionStatus : Type 0 where
  reserved submitted acknowledged partially_filled filled cancelled rejected : ExecutionStatus

-- The place of a member in the enum, to compare members by.
abbrev pub ordinal : ExecutionStatus → ℕ
ordinal reserved = 0
ordinal submitted = 1
ordinal acknowledged = 2
ordinal partially_filled = 3
ordinal filled = 4
ordinal cancelled = 5
ordinal rejected = 6

-- `a is b`
abbrev pub same_status : ExecutionStatus → ExecutionStatus → Bool
same_status a b = ordinal a == ordinal b

-- `a in {…}`
abbrev pub status_in : ExecutionStatus → List ExecutionStatus → Bool
status_in a [] = false
status_in a (b ∷ bs) = same_status a b || status_in a bs

abbrev pub terminal_statuses : List ExecutionStatus
terminal_statuses = filled ∷ cancelled ∷ rejected ∷ []

-- `_ALLOWED_TRANSITIONS`
unfoldable pub allowed_transitions : ExecutionStatus → List ExecutionStatus
allowed_transitions reserved = submitted ∷ rejected ∷ []
allowed_transitions submitted = acknowledged ∷ partially_filled ∷ filled ∷ cancelled ∷ rejected ∷ []
allowed_transitions acknowledged = partially_filled ∷ filled ∷ cancelled ∷ rejected ∷ []
allowed_transitions partially_filled = partially_filled ∷ filled ∷ cancelled ∷ rejected ∷ []
allowed_transitions filled = []
allowed_transitions cancelled = []
allowed_transitions rejected = []

pub same_status_iff : (a b : ExecutionStatus) → (same_status a b ≡ true) ↔ (a ≡ b)
same_status_iff a b = ground arith
