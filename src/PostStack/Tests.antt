-- ===== src/PostStack/Tests.antt =====
-- A run of src/post_stack_state.rs.
use my_kernel.Prelude.{◌≡◌, refl, none, some, ◌∷◌, []}
use my_kernel.PostStack.{PostStackState, initial, storing, taking, run, panicked, stored_it, took}

abbrev state : PostStackState
state = record { rsdp_phys = some 0xF0000; boot_stack_region = none }

-- A second `store` panics although a `take` came between.
store_after_take :
    (run (storing state ∷ taking ∷ storing state ∷ []) initial).0
    ≡ stored_it ∷ took state ∷ panicked ∷ []
unfolding run
store_after_take = refl
