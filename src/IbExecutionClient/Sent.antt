-- ===== src/IbExecutionClient/Sent.antt =====
-- What app/ib_execution_client.py has sent to the broker: at most one call about an event, and only
-- about an event whose durable record has left RESERVED.
use bitcoin_trading_strategy.Shared.{
  ℕ, String, str_eq, ◌≡◌, ◌≢◌, refl, ◌⊎◌, inl, inr, true, Option, none, some, List, [], ◌∷◌, ◌++◌,
  arith, eq_iff, All, All-append, All-map, Bool-cases, Option-cases,
}
use mathlib.Core.Path.{subst, sym}
use bitcoin_trading_strategy.Shared.Action.Zoom.{rest_after, zoom-bind}
use bitcoin_trading_strategy.Shared.Int.{ℤ, pos}
use bitcoin_trading_strategy.Shared.Result.{Result, Result-cases, ok}
use bitcoin_trading_strategy.Shared.Action.{Action}
use bitcoin_trading_strategy.Shared.Action.Keeps.{Keeps}
use bitcoin_trading_strategy.Shared.Table
use bitcoin_trading_strategy.Shared.Table.{find, IsKeyed}
use bitcoin_trading_strategy.Protocol.{TradeRequest}
use bitcoin_trading_strategy.DuplicateOrderGuard.{DuplicateOrderGuard}
use bitcoin_trading_strategy.ExecutionLedger
use bitcoin_trading_strategy.ExecutionLedger.{
  ExecutionStatus, reserved, submitted, ExecutionRecord, Ledger, record_key, transition,
  allowed_transitions, status_in, moved_record, write_transition, mark_submitted, mark_rejected,
  get, contains, validate_broker_order_id, or_else,
}
use bitcoin_trading_strategy.ExecutionLedger.Outcomes.{Moves, reserve_cases, transition_cases}
use bitcoin_trading_strategy.ExecutionLedger.Runs.{find-reserved, find-moved}
use bitcoin_trading_strategy.IbOrderFactory.{Contract, Order, IbOrderPackage, IbOrderFactory}
use bitcoin_trading_strategy.IbExecutionClient.{
  BrokerCall, Client, on_guard, on_ledger, deliver, send,
}

-- The record of the event has left RESERVED, and carries the order identifier.
pub record HasLeft (l : Ledger) (k : String) (order_id : ℕ) : Type 0 where
  pub holder : ExecutionRecord
  pub found : find record_key k l.records ≡ some holder
  pub left : holder.status ≢ reserved
  pub numbered : holder.broker_order_id ≡ some order_id

abbrev pub call_key : BrokerCall → String
call_key b = b.event_id

pub record IsSafe (c : Client) : Type 0 where
  pub recorded : All (λ b. HasLeft c.ledger b.event_id b.order_id) c.calls
  pub once : IsKeyed call_key c.calls

-- A method of the ledger that takes no record back to RESERVED and no order identifier away.
abbrev pub Preserves : {A : Type 0} → Action Ledger A → Type 0
Preserves m = (k : String) (o : ℕ) → Keeps (λ l. HasLeft l k o) m

pub on_ledger-IsSafe : {A : Type 0} (m : Action Ledger A) → Preserves m → Keeps IsSafe (on_ledger m)
on_ledger-IsSafe m p = record {
  at = λ c h. record {
    recorded =
        All-map (λ b. HasLeft c.ledger b.event_id b.order_id)
          (λ b. HasLeft (m c.ledger).1 b.event_id b.order_id) c.calls
          (λ b x. (p b.event_id b.order_id).at c.ledger x) h.recorded;
    once = h.once;
  };
}

pub on_guard-IsSafe : {A : Type 0} (m : Action DuplicateOrderGuard A) → Keeps IsSafe (on_guard m)
on_guard-IsSafe m = record { at = λ c h. record { recorded = h.recorded; once = h.once } }

never_back : (s t : ExecutionStatus) → status_in t (allowed_transitions s) ≡ true → t ≢ reserved
unfolding allowed_transitions
never_back s t h = ground arith

only_from_reserved :
    (s : ExecutionStatus) → status_in submitted (allowed_transitions s) ≡ true → s ≡ reserved
unfolding allowed_transitions
only_from_reserved s h = ground arith

pub reserve-Preserves :
    (now : ℕ) (request : TradeRequest) → Preserves (ExecutionLedger.reserve now request)
reserve-Preserves now request k o = record {
  at = λ l h. elim (reserve_cases now request l) [
    | inl (x, p) ↦ rw p h
    | inr m ↦ rw m.outcome (record {
      holder = h.holder;
      found = find-reserved k _ h.holder l h.found;
      left = h.left;
      numbered = h.numbered;
    })
  ];
}

module _ (k : String) (c : ExecutionRecord) (s : ExecutionStatus) (b : Option ℕ) (w : Option String)
    (now : ℕ) (l : Ledger) (found : find record_key k l.records ≡ some c)
    (allowed : status_in s (allowed_transitions c.status) ≡ true) where
  moved-HasLeft :
      (j : String) (o : ℕ)
      → (b ≡ c.broker_order_id) ⊎ (s ≡ submitted)
      → HasLeft l j o
      → HasLeft (write_transition k c s b w now l) j o
  moved-HasLeft j o how h = elim (Bool-cases (str_eq k j)) [
    | inl e ↦ record {
      holder = moved_record s b w now h.holder;
      found = rw (find-moved j k c s b w now l) (rw e (rw h.found));
      left = never_back c.status s allowed;
      numbered = ground (arith, same e, only_from_reserved c.status, h.left, h.numbered);
    }
    | inr e ↦ record {
      holder = h.holder;
      found = rw (find-moved j k c s b w now l) (rw e h.found);
      left = h.left;
      numbered = h.numbered;
    }
  ]
    where
      same : str_eq k j ≡ true → c ≡ h.holder
      same e = ground (arith, eq_iff k j, h.found)

keeps_number :
    (s : ExecutionStatus) (b : Option ℤ) (broker old : Option ℕ)
    → validate_broker_order_id b ≡ ok broker
    → (b ≡ none) ⊎ (s ≡ submitted)
    → (or_else broker old ≡ old) ⊎ (s ≡ submitted)
unfolding validate_broker_order_id
keeps_number s b broker old v (inl e) = inl (ground arith)
keeps_number s b broker old v (inr e) = inr e

pub transition-Preserves :
    (now : ℕ) (event_id : String) (s : ExecutionStatus) (b : Option ℤ) (w : Option String)
    → (b ≡ none) ⊎ (s ≡ submitted)
    → Preserves (transition now event_id s b w)
transition-Preserves now event_id s b w how k o = record {
  at = λ l h. elim (transition_cases now event_id s b w l) [
    | inl (x, p) ↦ rw p h
    | inr m ↦ rw m.outcome (
        moved-HasLeft m.key m.current s (or_else m.broker m.current.broker_order_id) m.why now l
          m.found m.allowed k o
          (keeps_number s b m.broker m.current.broker_order_id m.broker_valid how) h)
  ];
}

module _ (now order_id : ℕ) (event_id : String) (l : Ledger) (calls : List BrokerCall) where
  -- A record that may be marked SUBMITTED has not been sent: no call is about it.
  not_sent :
      All (λ b. HasLeft l b.event_id b.order_id) calls
      → (m : Moves now event_id submitted (some (pos order_id)) none l)
      → find call_key m.current.event_id calls ≡ none
  not_sent recorded m = elim (Option-cases (find call_key m.current.event_id calls)) [
    | inl e ↦ e
    | inr (b, e) ↦ absurd (
        go b e (
          Table.All-find call_key (λ b'. HasLeft l b'.event_id b'.order_id) m.current.event_id b
            calls recorded e))
  ]
    where
      go :
          (b : BrokerCall)
          → find call_key m.current.event_id calls ≡ some b
          → HasLeft l b.event_id b.order_id
          → ⊥
      go b e h = ground (
        arith,
        Table.key-find call_key m.current.event_id b calls e,
        Table.key-find record_key m.key m.current l.records m.found,
        m.found,
        h.found,
        h.left,
        only_from_reserved m.current.status m.allowed,
      )

  just_submitted :
      (m : Moves now event_id submitted (some (pos order_id)) none l)
      → HasLeft
          (write_transition m.key m.current submitted
            (or_else m.broker m.current.broker_order_id)
            m.why
            now
            l)
          m.current.event_id
          order_id
  just_submitted m = record {
    holder =
        moved_record submitted (or_else m.broker m.current.broker_order_id) m.why now m.current;
    found = ground (
      arith,
      find-moved m.current.event_id m.key m.current submitted
          (or_else m.broker m.current.broker_order_id) m.why now l,
      Table.key-find record_key m.key m.current l.records m.found,
      eq_iff m.key m.current.event_id,
      m.found,
    );
    left = λ e. cc;
    numbered = unfold validate_broker_order_id in ground (arith, m.broker_valid);
  }

-- The call of the broker about a record.
abbrev call_of : ExecutionRecord → ℕ → IbOrderPackage → BrokerCall
call_of r order_id p = record {
  event_id = r.event_id;
  order_id = order_id;
  contract = p.contract;
  order = p.order;
}

-- Marking the event SUBMITTED and then calling the broker about it keeps the client safe.
sent-IsSafe :
    (now : ℕ) (request : TradeRequest) (order_id : ℕ) (p : IbOrderPackage) (c : Client)
    (m : Moves now request.event_id submitted (some (pos order_id)) none c.ledger)
    → IsSafe c
    → IsSafe (record c {
      ledger =
          write_transition m.key m.current submitted
            (or_else m.broker m.current.broker_order_id)
            m.why
            now
            c.ledger;
      calls = c.calls ++ call_of m.current order_id p ∷ [];
    })
sent-IsSafe now request order_id p c m h = record {
  recorded =
      All-append (λ b. HasLeft after b.event_id b.order_id) c.calls
        (call_of m.current order_id p ∷ [])
        (All-map (λ b. HasLeft c.ledger b.event_id b.order_id)
          (λ b. HasLeft after b.event_id b.order_id) c.calls
          (λ b x.
            moved-HasLeft m.key m.current submitted (or_else m.broker m.current.broker_order_id)
              m.why now c.ledger m.found m.allowed b.event_id b.order_id (inr refl) x)
          h.recorded)
        (just_submitted now order_id request.event_id c.ledger c.calls m, tt);
  once =
      Table.IsKeyed-append call_key (call_of m.current order_id p) c.calls h.once
        (not_sent now order_id request.event_id c.ledger c.calls h.recorded m);
}
  where
    after : Ledger
    after =
        write_transition m.key m.current submitted (or_else m.broker m.current.broker_order_id)
          m.why now c.ledger

module _ (place_order : ℕ → Contract → Order → Result (Unit {0})) (factory : IbOrderFactory) where
  deliver-IsSafe :
      (request : TradeRequest) (order_id : ℕ) (p : IbOrderPackage) (r : ExecutionRecord)
      (c : Client)
      → IsSafe (record c { calls = c.calls ++ call_of r order_id p ∷ [] })
      → IsSafe (deliver place_order factory request order_id p r c).1
  unfolding deliver
  deliver-IsSafe request order_id p r c h =
      elim (Result-cases (place_order order_id p.contract p.order)) [
        | inl (x, e) ↦ rw e h
        | inr (u, e) ↦ rw e h
      ]

  pub send-IsSafe :
      (now : ℕ) (request : TradeRequest) (order_id : ℕ) (p : IbOrderPackage)
      → Keeps IsSafe (send place_order factory now request order_id p)
  unfolding send mark_submitted
  send-IsSafe now request order_id p = record {
    at = λ c h.
        elim (transition_cases now request.event_id submitted (some (pos order_id)) none c.ledger) [
          | inl (x, e) ↦ subst (λ o. IsSafe o.1) (sym (step c e)) h
          | inr m ↦
              subst (λ o. IsSafe o.1) (sym (step c m.outcome))
                (deliver-IsSafe request order_id p _ _ (sent-IsSafe now request order_id p c m h))
        ];
  }
    where
      step :
          (c : Client) {o : Result ExecutionRecord × Ledger}
          → mark_submitted now request.event_id (pos order_id) c.ledger ≡ o
          → send place_order factory now request order_id p c
            ≡ rest_after
                (λ d. d.ledger)
                (λ l d. record d { ledger = l })
                (mark_submitted now request.event_id (pos order_id))
                (deliver place_order factory request order_id p)
                c
                o
      step c e =
          zoom-bind (λ d. d.ledger) (λ l d. record d { ledger = l })
            (mark_submitted now request.event_id (pos order_id))
            (deliver place_order factory request order_id p) c e
