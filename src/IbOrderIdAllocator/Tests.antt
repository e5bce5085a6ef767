-- ===== src/IbOrderIdAllocator/Tests.antt =====
-- The allocator of app/ib_order_id_allocator.py on concrete calls.
use bitcoin_trading_strategy.Shared.{◌<◌, ◌≡◌, refl, List, [], ◌∷◌, All}
use bitcoin_trading_strategy.Shared.Int.{pos, negsuc}
use bitcoin_trading_strategy.IbOrderIdAllocator.{
  new_allocator, initialize, allocate, observe_order_id, ensure_minimum_next_id, validate_order_id,
}
use bitcoin_trading_strategy.IbOrderIdAllocator.Fresh.{
  Call, initialize_call, observe_call, minimum_call, allocate_call, after, allocated, run, IsRising,
  allocated-IsRising, observed_below_allocated,
}

-- The first allocation comes too early; the broker repeats an old nextValidId.
abbrev calls : List Call
calls =
    allocate_call
    ∷ observe_call (pos 4)
    ∷ initialize_call (pos 3)
    ∷ allocate_call
    ∷ initialize_call (pos 3)
    ∷ allocate_call
    ∷ minimum_call (pos 10)
    ∷ allocate_call
    ∷ observe_call (negsuc 0)
    ∷ []

three_given : allocated calls new_allocator ≡ 5 ∷ 6 ∷ 10 ∷ []
unfolding allocated after initialize allocate observe_order_id ensure_minimum_next_id
    validate_order_id
three_given = refl

allocated-IsRising_example : IsRising (allocated calls new_allocator)
allocated-IsRising_example = allocated-IsRising calls

-- The floor that is set before initialize is not kept.
minimum_lost :
    allocated (minimum_call (pos 10) ∷ initialize_call (pos 3) ∷ allocate_call ∷ []) new_allocator
    ≡ 3 ∷ []
unfolding allocated after initialize allocate observe_order_id ensure_minimum_next_id
    validate_order_id
minimum_lost = refl

observed_below_allocated_example :
    All
      (λ n. 20 < n)
      (allocated
        (initialize_call (pos 3) ∷ allocate_call ∷ [])
        (after (observe_call (pos 20)) (run [] new_allocator)))
observed_below_allocated_example =
    observed_below_allocated [] (initialize_call (pos 3) ∷ allocate_call ∷ []) 20
