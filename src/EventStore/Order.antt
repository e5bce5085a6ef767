-- ===== src/EventStore/Order.antt =====
-- What app/event_store.py answers about one event, and when it writes.
use bitcoin_trading_strategy.Shared.{
  ℕ, String, str_eq, ◌≡◌, refl, ◌⊎◌, inl, inr, Bool, true, false, ◌||◌, Option, none, some, List,
  [], ◌∷◌, ◌++◌, arith, Bool-cases,
}
use bitcoin_trading_strategy.Shared.Int.{ℤ, pos, ltb_ℤ}
use bitcoin_trading_strategy.Shared.Result.{Result, Result-cases, ok, err}
use bitcoin_trading_strategy.EventStore.{
  EventStore, EventProcessingResult, accepted, duplicate_event, out_of_sequence, validate_event_id,
  validate_seq, is_processed, is_stale, check_event_with_seq, verdict, mark_event_with_seq,
  check_and_mark_event_with_seq,
}

pub is_processed-append :
    (k j : String) (es : List String)
    → is_processed k (es ++ j ∷ []) ≡ (is_processed k es || str_eq j k)
unfolding is_processed
is_processed-append k j [] = ground arith
is_processed-append k j (e ∷ es) = ground (arith, is_processed-append k j es)

-- A sequence number that is above the stored one.
abbrev pub is_above : Option ℕ → ℤ → Bool
is_above none seq = true
is_above (some last) seq = ltb_ℤ (pos last) seq

-- A call that accepted the event.
pub record Accepts (event_id : String) (seq : ℤ) (s : EventStore) : Type 0 where
  pub number : ℕ
  pub numbered : seq ≡ pos number
  pub unknown : is_processed event_id s.processed_events ≡ false
  pub above : is_above s.last_seq seq ≡ true
  pub outcome : check_and_mark_event_with_seq event_id seq s ≡ (
    ok accepted,
    record { processed_events = s.processed_events ++ event_id ∷ []; last_seq = some number },
  )

-- A call that did not: it raised or answered otherwise, and wrote nothing.
pub record Refuses (event_id : String) (seq : ℤ) (s : EventStore) : Type 0 where
  pub answer : Result EventProcessingResult
  pub refused : answer ≡ ok accepted → ⊥
  pub outcome : check_and_mark_event_with_seq event_id seq s ≡ (answer, s)

validate_event_id-same :
    (event_id key : String) → validate_event_id event_id ≡ ok key → key ≡ event_id
unfolding validate_event_id
validate_event_id-same event_id key h = ground arith

validate_seq-pos : (seq : ℤ) (n : ℕ) → validate_seq seq ≡ ok n → seq ≡ pos n
unfolding validate_seq
validate_seq-pos seq n h = ground arith

pub mark_cases :
    (event_id : String) (seq : ℤ) (s : EventStore) → Refuses event_id seq s ⊎ Accepts event_id seq s
mark_cases event_id seq s = elim (Result-cases (validate_event_id event_id)) [
  | inl (x, p) ↦ inl (record {
    answer = err x;
    refused = λ h. cc;
    outcome = unfold check_and_mark_event_with_seq in rw p refl;
  })
  | inr (k, p) ↦ elim (Result-cases (validate_seq seq)) [
    | inl (x, q) ↦ inl (record {
      answer = err x;
      refused = λ h. cc;
      outcome = unfold check_and_mark_event_with_seq in rw (p, q) refl;
    })
    | inr (n, q) ↦ elim (Bool-cases (is_processed event_id s.processed_events)) [
      | inl d ↦ inl (record {
        answer = ok duplicate_event;
        refused = λ h. cc;
        outcome =
            unfold check_and_mark_event_with_seq mark_event_with_seq in
            ground (arith, p, q, d, validate_event_id-same event_id k p);
      })
      | inr d ↦ elim (Bool-cases (is_stale n s.last_seq)) [
        | inl o ↦ inl (record {
          answer = ok out_of_sequence;
          refused = λ h. cc;
          outcome =
              unfold check_and_mark_event_with_seq mark_event_with_seq in
              ground (arith, p, q, d, o, validate_event_id-same event_id k p);
        })
        | inr o ↦ inr (record {
          number = n;
          numbered = validate_seq-pos seq n q;
          unknown = d;
          above = ground (arith, o, validate_seq-pos seq n q);
          outcome =
              unfold check_and_mark_event_with_seq mark_event_with_seq in
              ground (arith, p, q, d, o, validate_event_id-same event_id k p);
        })
      ]
    ]
  ]
]

-- check_event_with_seq answers or raises as check_and_mark_event_with_seq does on the same store, and
-- writes nothing.
pub check-agrees :
    (event_id : String) (seq : ℤ) (s : EventStore)
    → check_event_with_seq event_id seq s ≡ ((check_and_mark_event_with_seq event_id seq s).0, s)
unfolding check_event_with_seq check_and_mark_event_with_seq verdict mark_event_with_seq
check-agrees event_id seq s = ground arith
