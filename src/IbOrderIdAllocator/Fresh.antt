-- ===== src/IbOrderIdAllocator/Fresh.antt =====
-- The identifiers that app/ib_order_id_allocator.py gives out are new ones.
use bitcoin_trading_strategy.Shared.{
  ℕ, ◌<◌, ◌≡◌, refl, Bool, true, Option, none, some, List, [], ◌∷◌, arith, ◌&&◌, ltb, leb, All,
  All-map,
}
use bitcoin_trading_strategy.Shared.Int.{ℤ, pos, negsuc}
use bitcoin_trading_strategy.Shared.Result.{Result, ok, err}
use bitcoin_trading_strategy.IbOrderIdAllocator.{
  IbOrderIdAllocator, new_allocator, validate_order_id, initialize, allocate, observe_order_id,
  ensure_minimum_next_id,
}

pub data Call : Type 0 where
  initialize_call observe_call minimum_call : ℤ → Call
  allocate_call : Call

unfoldable pub after : Call → IbOrderIdAllocator → IbOrderIdAllocator
after (initialize_call id) a = (initialize id a).1
after (observe_call id) a = (observe_order_id id a).1
after (minimum_call id) a = (ensure_minimum_next_id id a).1
after allocate_call a = (allocate a).1

abbrev pub given : Result ℕ → List ℕ → List ℕ
given (ok id) rest = id ∷ rest
given (err _) rest = rest

-- The identifiers given out by some calls, in order. A call that raises gives none.
unfoldable pub allocated : List Call → IbOrderIdAllocator → List ℕ
unfolding after
allocated [] a = []
allocated (initialize_call id ∷ cs) a = allocated cs (after (initialize_call id) a)
allocated (observe_call id ∷ cs) a = allocated cs (after (observe_call id) a)
allocated (minimum_call id ∷ cs) a = allocated cs (after (minimum_call id) a)
allocated (allocate_call ∷ cs) a = given (allocate a).0 (allocated cs (after allocate_call a))

abbrev pub all_below : Option ℕ → ℕ → Bool
all_below none n = true
all_below (some o) n = ltb o n

-- The next identifier is above all those observed, and there is one only after `initialize`.
abbrev is_sound : IbOrderIdAllocator → Bool
is_sound a = elim a.next_order_id [
  | none ↦ true
  | some n ↦ all_below a.highest_observed_order_id n && a.initialized
]

-- An identifier that is not below the next one and is above all those observed.
abbrev is_free : IbOrderIdAllocator → ℕ → Bool
is_free a n =
    all_below a.highest_observed_order_id n
    && elim a.next_order_id [ none ↦ true | some m ↦ leb m n ]

after_sound : (c : Call) (a : IbOrderIdAllocator) → is_sound a ≡ true → is_sound (after c a) ≡ true
unfolding after initialize observe_order_id ensure_minimum_next_id allocate validate_order_id
after_sound (initialize_call (pos id)) a h = ground (arith, h)
after_sound (initialize_call (negsuc id)) a h = h
after_sound (observe_call (pos id)) a h = ground (arith, h)
after_sound (observe_call (negsuc id)) a h = h
after_sound (minimum_call (pos id)) a h = ground (arith, h)
after_sound (minimum_call (negsuc id)) a h = h
after_sound allocate_call a h = ground (arith, h)

after-free :
    (c : Call) (a : IbOrderIdAllocator) (n : ℕ)
    → is_sound a ≡ true
    → is_free (after c a) n ≡ true
    → is_free a n ≡ true
unfolding after initialize observe_order_id ensure_minimum_next_id allocate validate_order_id
after-free (initialize_call (pos id)) a n h f = ground (arith, h, f)
after-free (initialize_call (negsuc id)) a n h f = f
after-free (observe_call (pos id)) a n h f = ground (arith, h, f)
after-free (observe_call (negsuc id)) a n h f = f
after-free (minimum_call (pos id)) a n h f = ground (arith, h, f)
after-free (minimum_call (negsuc id)) a n h f = f
after-free allocate_call a n h f = ground (arith, h, f)

abbrev pub IsRising : List ℕ → Type 0
IsRising [] = Unit
IsRising (n ∷ ns) = All (λ m. n < m) ns × IsRising ns

allocate-free :
    (a : IbOrderIdAllocator) (id : ℕ)
    → is_sound a ≡ true
    → (allocate a).0 ≡ ok id
    → is_free a id ≡ true
unfolding allocate
allocate-free a id h e = ground (arith, h, e)

allocate_below :
    (a : IbOrderIdAllocator) (id m : ℕ)
    → (allocate a).0 ≡ ok id
    → is_free (after allocate_call a) m ≡ true
    → id < m
unfolding allocate after
allocate_below a id m e f = ground (arith, e, f)

abbrev Accounted : IbOrderIdAllocator → List ℕ → Type 0
Accounted a ns = All (λ n. is_free a n ≡ true) ns × IsRising ns

given-Accounted :
    (a : IbOrderIdAllocator) (r : Result ℕ) (rest : List ℕ)
    → ((id : ℕ) → r ≡ ok id → is_free a id ≡ true)
    → ((id : ℕ) → r ≡ ok id → All (λ m. id < m) rest)
    → Accounted a rest
    → Accounted a (given r rest)
given-Accounted a (ok id) rest free below h = ((free id refl, h.0), (below id refl, h.1))
given-Accounted a (err e) rest free below h = h

step-Accounted :
    (c : Call) (a : IbOrderIdAllocator) (ns : List ℕ)
    → is_sound a ≡ true
    → Accounted (after c a) ns
    → Accounted a ns
step-Accounted c a ns h (f, r) = (
  All-map (λ n. is_free (after c a) n ≡ true) (λ n. is_free a n ≡ true) ns (λ n. after-free c a n h)
      f,
  r,
)

allocated-Accounted :
    (cs : List Call) (a : IbOrderIdAllocator) → is_sound a ≡ true → Accounted a (allocated cs a)
unfolding allocated
allocated-Accounted [] a h = (tt, tt)
allocated-Accounted (initialize_call id ∷ cs) a h =
    step-Accounted (initialize_call id) a _ h
      (allocated-Accounted cs _ (after_sound (initialize_call id) a h))
allocated-Accounted (observe_call id ∷ cs) a h =
    step-Accounted (observe_call id) a _ h
      (allocated-Accounted cs _ (after_sound (observe_call id) a h))
allocated-Accounted (minimum_call id ∷ cs) a h =
    step-Accounted (minimum_call id) a _ h
      (allocated-Accounted cs _ (after_sound (minimum_call id) a h))
allocated-Accounted (allocate_call ∷ cs) a h =
    let (f, r) = allocated-Accounted cs (after allocate_call a) (after_sound allocate_call a h) in
    given-Accounted a (allocate a).0 (allocated cs (after allocate_call a))
      (λ id e. allocate-free a id h e)
      (λ id e.
        All-map (λ n. is_free (after allocate_call a) n ≡ true) (λ m. id < m) _
          (λ m g. allocate_below a id m e g) f)
      (step-Accounted allocate_call a _ h (f, r))

unfoldable pub run : List Call → IbOrderIdAllocator → IbOrderIdAllocator
run [] a = a
run (c ∷ cs) a = run cs (after c a)

run_sound :
    (cs : List Call) (a : IbOrderIdAllocator) → is_sound a ≡ true → is_sound (run cs a) ≡ true
unfolding run
run_sound [] a h = h
run_sound (c ∷ cs) a h = run_sound cs (after c a) (after_sound c a h)

-- Whatever calls are made of a new allocator, returning or raising and in any order, the order
-- identifiers that it gives out rise strictly, so none is given out twice.
pub allocated-IsRising : (cs : List Call) → IsRising (allocated cs new_allocator)
allocated-IsRising cs = (allocated-Accounted cs new_allocator refl).1

observed_below :
    (id : ℕ) (a : IbOrderIdAllocator) (n : ℕ)
    → is_free (after (observe_call (pos id)) a) n ≡ true
    → id < n
unfolding after observe_order_id validate_order_id
observed_below id a n f = ground (arith, f)

-- After any calls of a new allocator, an order identifier that it observes, also before initialize,
-- is below every one that it gives out later.
pub observed_below_allocated :
    (cs ds : List Call) (id : ℕ)
    → All (λ n. id < n) (allocated ds (after (observe_call (pos id)) (run cs new_allocator)))
observed_below_allocated cs ds id =
    All-map _ (λ n. id < n) _ (λ n f. observed_below id (run cs new_allocator) n f)
      (allocated-Accounted ds _
        (after_sound (observe_call (pos id)) _ (run_sound cs new_allocator refl))).0
