-- ===== src/Shared/Action/Zoom.antt =====
-- A call on one field of an object, at what it returned.
use bitcoin_trading_strategy.Shared.{◌≡◌, ap}
use bitcoin_trading_strategy.Shared.Result.{Result, ok, err}
use bitcoin_trading_strategy.Shared.Action.{Action, zoom, ◌>>=◌}

module _ {S T A B : Type 0} (get : S → T) (put : T → S → S) (m : Action T A) (f : A → Action S B)
    (s : S) where
  -- How the method goes on, by how the call ended.
  abbrev pub rest_after : Result A × T → Result B × S
  rest_after o = elim o.0 as (λ _. Result B × S) [
    | ok a ↦ f a (put o.1 s)
    | err e ↦ (err e, put o.1 s)
  ]

  pub zoom-bind : {o : Result A × T} → m (get s) ≡ o → (zoom get put m >>= f) s ≡ rest_after o
  zoom-bind e = ap rest_after e
