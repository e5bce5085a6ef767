-- ===== src/EagleTradeAdapter/Requests.antt =====
-- The requests that the adapted events of app/communications/eagle_trade_adapter.py lead to.
use bitcoin_trading_strategy.Shared.{
  String, str_eq, ◌≡◌, refl, ◌⊎◌, inl, inr, Option, none, some, List, [], ◌∷◌, arith, eq_iff,
  Bool-cases,
}
use bitcoin_trading_strategy.Shared.Result.{Result-cases, ok}
use bitcoin_trading_strategy.Shared.Text.{upper, lower}
use bitcoin_trading_strategy.Protocol.{
  TradeIntent, buy_to_open, sell_to_open, buy_to_close, sell_to_close, intent_value,
  intent_of_value, JsonValue, text, mapping, other, IncomingLifecycleEvent, payload_get,
  TradeRequest, TradingSettingsSnapshot, from_event, request_with_intent, raw_intent_of,
}
use bitcoin_trading_strategy.SignalLifecycle.{
  SignalLifecycleState, long_open, short_open, closed, Guard, get_state, next_state_for,
}
use bitcoin_trading_strategy.EagleTradeAdapter.{
  adapted, EagleTradeAdaptResult, payload_set, with_intent, signal_field, intent_of_direction,
  adapt_direction, adapt_symbol, adapt_signal, adapt_entry, exit_for, adapt_exit, adapt,
}

payload_get-set :
    (key : String) (value : JsonValue) (payload : List (String × JsonValue))
    → payload_get key (payload_set key value payload) ≡ some value
unfolding payload_get payload_set
payload_get-set key value [] = ground (arith, eq_iff key key)
payload_get-set key value ((name, old) ∷ rest) = ground (arith, payload_get-set key value rest)

intent_of_value-intent_value : (i : TradeIntent) → intent_of_value (intent_value i) ≡ ok i
unfolding intent_of_value intent_value
intent_of_value-intent_value buy_to_open = refl
intent_of_value-intent_value sell_to_open = refl
intent_of_value-intent_value buy_to_close = refl
intent_of_value-intent_value sell_to_close = refl

-- The request of an event that was given an intent.
from_event-with_intent :
    (event : IncomingLifecycleEvent) (settings : TradingSettingsSnapshot) (i : TradeIntent)
    → from_event (with_intent event i) settings
      ≡ ok (request_with_intent (with_intent event i) settings i)
unfolding from_event with_intent raw_intent_of
from_event-with_intent event settings i =
    rw (payload_get-set "intent" (text (intent_value i)) event.payload)
      (rw (intent_of_value-intent_value i) refl)

-- Why a request has its intent.
abbrev pub IsMeant : IncomingLifecycleEvent → Guard → TradeIntent → Type 0
IsMeant event g i =
    ((event.message_type ≡ "fund.entry") × ((i ≡ buy_to_open) ⊎ (i ≡ sell_to_open)))
    ⊎ ((event.message_type ≡ "fund.exit")
        × ((s : SignalLifecycleState) × ((get_state event.signal_id g).0 ≡ ok (some s))
            × (next_state_for (some s) i ≡ some closed)))

-- What an adapted result holds.
abbrev IsAdaptation : IncomingLifecycleEvent → Guard → EagleTradeAdaptResult → Type 0
IsAdaptation event g r =
    (i : TradeIntent) × (r.event ≡ some (with_intent event i)) × IsMeant event g i

entry_intent :
    (event : IncomingLifecycleEvent) (signal : List (String × Option String))
    (r : EagleTradeAdaptResult)
    → adapt_direction event signal ≡ ok r
    → (i : TradeIntent) × (r.event ≡ some (with_intent event i))
      × ((i ≡ buy_to_open) ⊎ (i ≡ sell_to_open))
unfolding adapt_direction intent_of_direction
entry_intent event signal r h = elim (Result-cases (signal_field "direction" signal)) [
  | inl (x, d) ↦ (let c = rw d at h in ground (arith, c))
  | inr (d, e) ↦ elim (Bool-cases (str_eq (lower d) "long")) [
    | inl l ↦ (let c = rw l at (rw e at h) in (buy_to_open, ground (arith, c), inl refl))
    | inr l ↦ elim (Bool-cases (str_eq (lower d) "short")) [
      | inl s ↦
          (let c = rw s at (rw l at (rw e at h)) in (sell_to_open, ground (arith, c), inr refl))
      | inr s ↦ (let c = rw s at (rw l at (rw e at h)) in ground (arith, c))
    ]
  ]
]

entry_signal :
    (event : IncomingLifecycleEvent) (o : Option JsonValue) (r : EagleTradeAdaptResult)
    → adapt_signal event o ≡ ok r
    → r.status ≡ adapted
    → (i : TradeIntent) × (r.event ≡ some (with_intent event i))
      × ((i ≡ buy_to_open) ⊎ (i ≡ sell_to_open))
unfolding adapt_signal adapt_symbol
entry_signal event none r h a = ground (arith, h)
entry_signal event (some (text t)) r h a = ground (arith, h)
entry_signal event (some other) r h a = ground (arith, h)
entry_signal event (some (mapping signal)) r h a =
    elim (Result-cases (signal_field "symbol" signal)) [
      | inl (x, s) ↦ (let c = rw s at h in ground (arith, c))
      | inr (s, e) ↦ elim (Bool-cases (str_eq (upper s) "BTCUSDT")) [
        | inl b ↦ entry_intent event signal r (rw b at (rw e at h))
        | inr b ↦ (let c = rw b at (rw e at h) in ground (arith, c, a))
      ]
    ]

exit_meant :
    (event : IncomingLifecycleEvent) (o : Option SignalLifecycleState) (r : EagleTradeAdaptResult)
    → exit_for event o ≡ r
    → r.status ≡ adapted
    → (i : TradeIntent) × (r.event ≡ some (with_intent event i))
      × ((s : SignalLifecycleState) × (o ≡ some s) × (next_state_for (some s) i ≡ some closed))
unfolding exit_for next_state_for
exit_meant event none r h a = ground (arith, h, a)
exit_meant event (some long_open) r h a =
    (sell_to_close, ground (arith, h), (long_open, refl, refl))
exit_meant event (some short_open) r h a =
    (buy_to_close, ground (arith, h), (short_open, refl, refl))
exit_meant event (some closed) r h a = ground (arith, h, a)

adapted_parts :
    (event : IncomingLifecycleEvent) (g : Guard) (r : EagleTradeAdaptResult)
    → adapt event g ≡ ok r
    → r.status ≡ adapted
    → IsAdaptation event g r
unfolding adapt adapt_entry adapt_exit
adapted_parts event g r h a = elim (Bool-cases (str_eq event.message_type "fund.entry")) [
  | inl e ↦
      (let (i, v, o) = entry_signal event _ r (rw e at h) a in
        (i, v, inl ((eq_iff event.message_type "fund.entry").0 e, o)))
  | inr e ↦ elim (Bool-cases (str_eq event.message_type "fund.exit")) [
    | inl x ↦ elim (Result-cases (get_state event.signal_id g).0) [
      | inl (y, s) ↦ (let c = rw s at (rw x at (rw e at h)) in ground (arith, c))
      | inr (o, s) ↦
          (let c : ok (exit_for event o) ≡ ok r = rw s at (rw x at (rw e at h)) in
            let (i, v, (t, q, n)) = exit_meant event o r (ground (arith, c)) a in
            (i, v, inr ((eq_iff event.message_type "fund.exit").0 x, (t, rw q at s, n))))
    ]
    | inr x ↦ (let c = rw x at (rw e at h) in ground (arith, c))
  ]
]

-- If adapt returns an adapted event, then the trade request of that event exists, has the event's
-- identifiers, and an intent: for an entry it opens a position, and for an exit it closes the position
-- of the direction that the lifecycle guard has stored for the signal.
pub adapted_request :
    (event : IncomingLifecycleEvent) (g : Guard) (settings : TradingSettingsSnapshot)
    (r : EagleTradeAdaptResult)
    → adapt event g ≡ ok r
    → r.status ≡ adapted
    → (event' : IncomingLifecycleEvent) × (request : TradeRequest) × (r.event ≡ some event')
      × (from_event event' settings ≡ ok request)
      × (request.event_id ≡ event.event_id)
      × (request.signal_id ≡ event.signal_id)
      × IsMeant event g request.intent
unfolding request_with_intent with_intent
adapted_request event g settings r h a =
    let (i, v, m) = adapted_parts event g r h a in
    (
      with_intent event i,
      request_with_intent (with_intent event i) settings i,
      v,
      from_event-with_intent event settings i,
      refl,
      refl,
      m,
    )
