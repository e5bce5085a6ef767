-- ===== src/SignalLifecycle/Invariant.antt =====
-- The database of app/signal_lifecycle_guard.py stays well formed, and `process` follows the
-- table of transitions on it.
use bitcoin_trading_strategy.Shared.{
  String, str_eq, ◌≡◌, refl, ◌⊎◌, inl, inr, Option-cases, Option, none, some, [], ◌∷◌, arith,
  eq_iff, All, All-append, if◌then◌else◌,
}
use bitcoin_trading_strategy.Shared.Result.{Result, ok, err}
use bitcoin_trading_strategy.Shared.Table
use bitcoin_trading_strategy.Shared.Table.{find, update, IsKeyed}
use bitcoin_trading_strategy.SignalLifecycle.{
  SignalLifecycleState, state_value, state_of_value, Row, Guard, row_key, stored_state, new_row,
  renewed_row, write_row,
}

-- The text of a row's state is the value of a member of the enum.
abbrev pub HasState : Row → Type 0
HasState r = (s : SignalLifecycleState) × (r.state ≡ state_value s)

pub record IsWellFormed (g : Guard) : Type 0 where
  pub keyed : IsKeyed row_key g.signal_lifecycle
  pub states : All HasState g.signal_lifecycle

pub state_of_value-state_value : (s : SignalLifecycleState) → state_of_value (state_value s) ≡ ok s
unfolding state_of_value state_value
state_of_value-state_value SignalLifecycleState.long_open = refl
state_of_value-state_value SignalLifecycleState.short_open = refl
state_of_value-state_value SignalLifecycleState.closed = refl

abbrev stored : Result SignalLifecycleState → Option SignalLifecycleState
stored (ok s) = some s
stored (err _) = none

abbrev row_state : Option Row → Option SignalLifecycleState
row_state none = none
row_state (some r) = stored (state_of_value r.state)

-- The state of each signal, which is all that a client of the guard can see of it.
unfoldable pub view : Guard → String → Option SignalLifecycleState
view g k = row_state (find row_key k g.signal_lifecycle)

pub stored_state-eq-view :
    (g : Guard) (k : String)
    → IsWellFormed g
    → stored_state (find row_key k g.signal_lifecycle) ≡ ok (view g k)
unfolding view stored_state
stored_state-eq-view g k w = go (find row_key k g.signal_lifecycle) refl
  where
    go :
        (o : Option Row) → find row_key k g.signal_lifecycle ≡ o → stored_state o ≡ ok (row_state o)
    go none e = refl
    go (some r) e =
        let (s, p) = Table.All-find row_key HasState k r g.signal_lifecycle w.states e in
        rw p (rw (state_of_value-state_value s))

-- A known row has a state, so `view` tells a new signal from a known one.
row_cases :
    (g : Guard) (k : String)
    → IsWellFormed g
    → ((find row_key k g.signal_lifecycle ≡ none) × (view g k ≡ none))
      ⊎ ((r : Row) × (s : SignalLifecycleState) × (find row_key k g.signal_lifecycle ≡ some r)
          × (view g k ≡ some s))
unfolding view
row_cases g k w = elim (Option-cases (find row_key k g.signal_lifecycle)) [
  | inl e ↦ inl (e, rw e)
  | inr (r, e) ↦
      let (s, p) = Table.All-find row_key HasState k r g.signal_lifecycle w.states e in
      inr (r, s, e, rw (e, p, state_of_value-state_value s))
]

module _ (k e : String) (next : SignalLifecycleState) where
  pub view-write_row :
      (g : Guard) (j : String)
      → IsWellFormed g
      → view (write_row k e (view g k) next g) j ≡ (if str_eq k j then some next else view g j)
  unfolding write_row
  view-write_row g j w = elim (row_cases g k w) [
    | inl (f, v) ↦ rw v (
        unfold view in
        simp (Table.find-insert row_key j (new_row k e next) g.signal_lifecycle f)
          (ground (arith, state_of_value-state_value next)))
    | inr (r, s, f, v) ↦ rw v (
        unfold view in
        simp (Table.find-update row_key (renewed_row k e next) (λ x. refl) j k g.signal_lifecycle)
          (ground (arith, state_of_value-state_value next, eq_iff k j)))
  ]

  pub write_row-IsWellFormed :
      (g : Guard) → IsWellFormed g → IsWellFormed (write_row k e (view g k) next g)
  unfolding write_row
  write_row-IsWellFormed g w = elim (row_cases g k w) [
    | inl (f, v) ↦ rw v (record {
      keyed = Table.IsKeyed-append row_key (new_row k e next) g.signal_lifecycle w.keyed f;
      states =
          All-append HasState g.signal_lifecycle (new_row k e next ∷ []) w.states
            ((next, refl), tt);
    })
    | inr (r, s, f, v) ↦ rw v (record {
      keyed =
          Table.IsKeyed-update row_key (renewed_row k e next) (λ x. refl) k g.signal_lifecycle
            w.keyed;
      states =
          Table.All-update row_key HasState k (renewed_row k e next) g.signal_lifecycle
            (λ x h. (next, refl)) w.states;
    })
  ]
