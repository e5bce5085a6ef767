-- ===== src/Shared/Action.antt =====
-- A method call on an object: state and exceptions. What was written before a raise stays
-- written.
pub mod Keeps
pub mod Zoom
use bitcoin_trading_strategy.Shared.{Bool, if◌then◌else◌}
use bitcoin_trading_strategy.Shared.Result.{Error, Result, ok, err}

abbrev pub Action {ℓ} : Type ℓ → Type ℓ → Type ℓ
Action S A = S → Result A × S

module _ {ℓ} {S A : Type ℓ} where
  abbrev pub pure : A → Action S A
  pure a s = (ok a, s)

  abbrev pub raise : Error → Action S A
  raise e s = (err e, s)

  abbrev pub lift : Result A → Action S A
  lift r s = (r, s)

  abbrev pub gets : (S → A) → Action S A
  gets f s = (ok (f s), s)

  -- A call on the object that the field `get` holds.
  abbrev pub zoom : {T : Type ℓ} → (S → T) → (T → S → S) → Action T A → Action S A
  zoom get put m s = let (r, t) = m (get s) in (r, put t s)

  -- A method that reads the state and may raise.
  abbrev pub reads : (S → Result A) → Action S A
  reads f s = (f s, s)

infixl 5 ◌>>=◌ ◌>>◌
abbrev pub ◌>>=◌ {ℓ} : {S A B : Type ℓ} → Action S A → (A → Action S B) → Action S B
◌>>=◌ m f s = let (r, s') = m s in elim r [ ok a ↦ f a s' | err e ↦ (err e, s') ]

abbrev pub ◌>>◌ {ℓ} : {S A B : Type ℓ} → Action S A → Action S B → Action S B
m >> k = m >>= λ _. k

abbrev pub modify : {S : Type 0} → (S → S) → Action S (Unit {0})
modify f s = (ok tt, f s)

abbrev pub raise_if : {S : Type 0} → Bool → Error → Action S (Unit {0})
raise_if c e s = (if c then err e else ok tt, s)

-- `try: m except Exception as e: handler(e)`
abbrev pub on_error {ℓ} : {S A : Type ℓ} → Action S A → (Error → Action S A) → Action S A
on_error m handler s = let (r, s') = m s in elim r [ ok a ↦ (ok a, s') | err e ↦ handler e s' ]
