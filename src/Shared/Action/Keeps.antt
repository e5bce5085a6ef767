-- ===== src/Shared/Action/Keeps.antt =====
-- Invariants of actions, by the way an action is built.
use bitcoin_trading_strategy.Shared.{Bool, true, false, if◌then◌else◌}
use bitcoin_trading_strategy.Shared.Result.{Error, Result, ok, err}
use bitcoin_trading_strategy.Shared.Action.{
  Action, pure, raise, lift, gets, raise_if, on_error, ◌>>=◌,
}

-- `m` keeps `P`, whether it returns or raises.
pub record Keeps {S A : Type 0} (P : S → Type 0) (m : Action S A) : Type 0 where
  pub at : (s : S) → P s → P (m s).1

module _ {S A : Type 0} {P : S → Type 0} where
  pub Keeps-pure : (a : A) → Keeps P (pure a)
  Keeps-pure a = record { at = λ s h. h }

  pub Keeps-raise : (e : Error) → Keeps P (raise {A = A} e)
  Keeps-raise e = record { at = λ s h. h }

  pub Keeps-lift : (r : Result A) → Keeps P (lift r)
  Keeps-lift r = record { at = λ s h. h }

  pub Keeps-gets : (f : S → A) → Keeps P (gets f)
  Keeps-gets f = record { at = λ s h. h }

  pub Keeps-on_error :
      (m : Action S A) (handler : Error → Action S A)
      → Keeps P m
      → ((e : Error) → Keeps P (handler e))
      → Keeps P (on_error m handler)
  Keeps-on_error m handler km kh = record { at = λ s h. go (m s) (km.at s h) }
    where
      go :
          (o : Result A × S)
          → P o.1
          → P (elim o.0 as (λ _. Result A × S) [ ok a ↦ (ok a, o.1) | err e ↦ handler e o.1 ]).1
      go (ok a, s') h = h
      go (err e, s') h = (kh e).at s' h

pub Keeps-if :
    {S A : Type 0} {P : S → Type 0} (c : Bool) (m n : Action S A)
    → Keeps P m
    → Keeps P n
    → Keeps P (if c then m else n)
Keeps-if true m n km kn = km
Keeps-if false m n km kn = kn

pub Keeps-raise_if :
    {S : Type 0} {P : S → Type 0} (b : Bool) (e : Error) → Keeps P (raise_if {S = S} b e)
Keeps-raise_if b e = record { at = λ s h. h }

module _ {S A B : Type 0} {P : S → Type 0} where
  pub Keeps-bind :
      (m : Action S A) (f : A → Action S B)
      → Keeps P m
      → ((a : A) → Keeps P (f a))
      → Keeps P (m >>= f)
  Keeps-bind m f km kf = record { at = λ s h. go (m s) (km.at s h) }
    where
      go :
          (o : Result A × S)
          → P o.1
          → P (elim o.0 as (λ _. Result B × S) [ ok a ↦ f a o.1 | err e ↦ (err e, o.1) ]).1
      go (ok a, s') h = (kf a).at s' h
      go (err e, s') h = h

pub ruleset keeps_rules =
    (Keeps-pure, Keeps-raise, Keeps-lift, Keeps-gets, Keeps-raise_if, Keeps-on_error, Keeps-bind)
