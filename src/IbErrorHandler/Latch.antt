-- ===== src/IbErrorHandler/Latch.antt =====
-- What any messages of the broker do to the kill switch, by app/ib_error_handler.py.
use bitcoin_trading_strategy.Shared.Action.Zoom.{zoom-bind}
use bitcoin_trading_strategy.Shared.Text.{strip}
use bitcoin_trading_strategy.Shared.{
  ℕ, String, ◌≡◌, refl, inl, inr, true, ◌||◌, Option, none, some, List, [], ◌∷◌, arith, Bool-cases,
}
use bitcoin_trading_strategy.Shared.Int.{ℤ, pos, negsuc}
use bitcoin_trading_strategy.Shared.Result.{Result, Result-cases, ok, runtime_error}
use bitcoin_trading_strategy.Shared.Text.{validate_identifier, validate_identifier-cons, is_space}
use bitcoin_trading_strategy.Shared.Action.{Action}
use bitcoin_trading_strategy.Shared.Action.Keeps.{
  Keeps, keeps_rules, Keeps-bind, Keeps-raise, Keeps-if,
}
use bitcoin_trading_strategy.KillSwitch.{KillSwitch, activate, activate_inactive}
use bitcoin_trading_strategy.ExecutionLedger.{
  ExecutionRecord, Ledger, cancelled, rejected, same_status, terminal, mark_cancelled,
  mark_rejected,
}
use bitcoin_trading_strategy.IbErrorHandler.{
  IbErrorSeverity, critical, order_rejected, order_cancelled, IbErrorResult, Broker, critical_codes,
  code_in, severity_of, validate_request_id, validate_error_code, on_ledger, on_kill_switch,
  error_text, ambiguous_text, one_record, find_record, Message, result, settle_rejected,
  settle_cancelled, act, handle,
}

activate_active :
    (now : ℕ) (reason : String) (k : KillSwitch) → k.active ≡ true → (activate now reason k).1 ≡ k
unfolding activate activate_inactive
activate_active now reason k h = elim (Result-cases (validate_identifier reason)) [
  | inl (x, p) ↦ rw p refl
  | inr (w, p) ↦ rw p (rw h refl)
]

module _ (k : KillSwitch) (active : k.active ≡ true) where
  -- The kill switch is this one.
  abbrev pub Holds : Broker → Type 0
  Holds b = b.kill_switch ≡ k

  activate-Holds : (now : ℕ) (reason : String) → Keeps Holds (on_kill_switch (activate now reason))
  activate-Holds now reason = record { at = λ b h. rw h (activate_active now reason k active) }

  ledger-Holds : {A : Type 0} (m : Action Ledger A) → Keeps Holds (on_ledger m)
  ledger-Holds m = record { at = λ b h. h }

  one_record-Holds :
      (now order_id : ℕ) (rs : List ExecutionRecord) → Keeps Holds (one_record now order_id rs)
  unfolding one_record
  one_record-Holds now order_id [] = record { at = λ b h. h }
  one_record-Holds now order_id (r ∷ []) = record { at = λ b h. h }
  one_record-Holds now order_id (r ∷ s ∷ rs) =
      Keeps-bind _ _ (activate-Holds now (ambiguous_text order_id)) (λ _. Keeps-raise runtime_error)

  find_record-Holds : (now : ℕ) (id : ℤ) → Keeps Holds (find_record now id)
  unfolding find_record
  find_record-Holds now (negsuc n) = record { at = λ b h. h }
  find_record-Holds now (pos n) = search (keeps_rules, one_record-Holds)

  result-Holds :
      (m : Message) (s : IbErrorSeverity) (o : Option ExecutionRecord) → Keeps Holds (result m s o)
  unfolding result
  result-Holds m s o = record { at = λ b h. h }

  settle_rejected-Holds :
      (now : ℕ) (m : Message) (o : Option ExecutionRecord) → Keeps Holds (settle_rejected now m o)
  unfolding settle_rejected
  settle_rejected-Holds now m none = result-Holds m order_rejected none
  settle_rejected-Holds now m (some r) =
      Keeps-if (same_status r.status rejected || terminal r) _ _
        (result-Holds m order_rejected (some r))
        (Keeps-bind _ _
          (ledger-Holds (mark_rejected now r.event_id (error_text m.error_code m.message)))
          (λ moved. result-Holds m order_rejected (some moved)))

  settle_cancelled-Holds :
      (now : ℕ) (m : Message) (o : Option ExecutionRecord) → Keeps Holds (settle_cancelled now m o)
  unfolding settle_cancelled
  settle_cancelled-Holds now m none = result-Holds m order_cancelled none
  settle_cancelled-Holds now m (some r) =
      Keeps-if (same_status r.status cancelled || terminal r) _ _
        (result-Holds m order_cancelled (some r))
        (Keeps-bind _ _
          (ledger-Holds (mark_cancelled now r.event_id (some (error_text m.error_code m.message))))
          (λ moved. result-Holds m order_cancelled (some moved)))

  act-Holds : (now : ℕ) (m : Message) (s : IbErrorSeverity) → Keeps Holds (act now m s)
  unfolding act
  act-Holds now m critical =
      Keeps-bind _ _ (activate-Holds now _) (λ _. result-Holds m critical none)
  act-Holds now m order_rejected =
      Keeps-bind _ _ (find_record-Holds now m.request_id) (settle_rejected-Holds now m)
  act-Holds now m order_cancelled =
      Keeps-bind _ _ (find_record-Holds now m.request_id) (settle_cancelled-Holds now m)
  act-Holds now m s = result-Holds m s none

  handle-Holds :
      (now : ℕ) (request_id error_code : ℤ) (message : String)
      → Keeps Holds (handle now request_id error_code message)
  unfolding handle
  handle-Holds now request_id error_code message = search (keeps_rules, act-Holds)

-- A message of the broker, and the time at which it is handled.
pub record ErrorEvent : Type 0 where
  pub now : ℕ
  pub request_id : ℤ
  pub error_code : ℤ
  pub message : String

abbrev pub hear : ErrorEvent → Broker → Result IbErrorResult × Broker
hear e = handle e.now e.request_id e.error_code e.message

abbrev pub heard : List ErrorEvent → Broker → Broker
heard [] b = b
heard (e ∷ es) b = heard es (hear e b).1

heard-Holds :
    (k : KillSwitch) (active : k.active ≡ true) (es : List ErrorEvent) (b : Broker)
    → Holds k active b
    → Holds k active (heard es b)
heard-Holds k active [] b h = h
heard-Holds k active (e ∷ es) b h =
    heard-Holds k active es (hear e b).1
      ((handle-Holds k active e.now e.request_id e.error_code e.message).at b h)

severity_of-critical : (code : ℕ) → code_in code critical_codes ≡ true → severity_of code ≡ critical
unfolding severity_of
severity_of-critical code h = ground (arith, h)

activate_valid :
    (now : ℕ) (reason why : String) (k : KillSwitch)
    → validate_identifier reason ≡ ok why
    → activate now reason k ≡ (ok tt, activate_inactive now why k)
unfolding activate
activate_valid now reason why k h = rw h refl

activated_on :
    (now : ℕ) (why : String) (k : KillSwitch) → (activate_inactive now why k).active ≡ true
unfolding activate_inactive
activated_on now why k = elim (Bool-cases k.active) [ inl a ↦ rw a refl | inr a ↦ rw a refl ]

error_text_valid :
    (code : ℕ) (message : String)
    → validate_identifier (error_text code message) ≡ ok (strip (error_text code message))
unfolding error_text is_space
error_text_valid code message = validate_identifier-cons "I" _ refl

act-critical :
    (now : ℕ) (m : Message) (b : Broker)
    → let text = error_text m.error_code m.message in
      act now m critical b
      ≡ result m critical none
          (record b { kill_switch = activate_inactive now (strip text) b.kill_switch })
unfolding act
act-critical now m b =
    let text = error_text m.error_code m.message in
    zoom-bind (λ b. b.kill_switch) (λ k b. record b { kill_switch = k }) (activate now text)
      (λ _. result m critical none) b
      (activate_valid now text (strip text) b.kill_switch (error_text_valid m.error_code m.message))

act_critical :
    (now : ℕ) (m : Message) (b : Broker)
    → let (r, b') = act now m critical b in
      (b'.kill_switch.active ≡ true)
      × ((res : IbErrorResult) × (r ≡ ok res)
          × (res.severity ≡ critical)
          × (res.trading_blocked ≡ true))
unfolding result
act_critical now m b = rw (act-critical now m b) (
    let on = activated_on now (strip (error_text m.error_code m.message)) b.kill_switch in
    (on, (_, refl, refl, on)))

-- A message with a critical code, a request identifier of at least -1 and a text that is not blank is
-- reported as critical with trading blocked, and the kill switch that it leaves is active and is not
-- changed by any later messages, also those that report that the connection is restored.
pub critical_latches :
    (e : ErrorEvent) (later : List ErrorEvent) (b : Broker) (id : ℤ) (code : ℕ) (text : String)
    → validate_request_id e.request_id ≡ ok id
    → validate_error_code e.error_code ≡ ok code
    → validate_identifier e.message ≡ ok text
    → code_in code critical_codes ≡ true
    → let (r, b') = hear e b in
      ((res : IbErrorResult) × (r ≡ ok res)
        × (res.severity ≡ critical)
        × (res.trading_blocked ≡ true))
      × (b'.kill_switch.active ≡ true)
      × ((heard later b').kill_switch ≡ b'.kill_switch)
unfolding handle
critical_latches e later b id code text vi vc vm c =
    let m : Message = record { request_id = id; error_code = code; message = text } in
    let (on, reported) = act_critical e.now m b in
    let b' = (act e.now m critical b).1 in
    rw vi (
      rw vc (
        rw vm (
          rw (severity_of-critical code c)
            (reported, on, heard-Holds b'.kill_switch on later b' refl))))
