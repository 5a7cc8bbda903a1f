-- ===== src/PostStack.antt =====
-- The cell that carries data across the kernel's stack switch, src/post_stack_state.rs: the three statics as
-- a record. A panic keeps the flags it has already set, so an operation returns the cell in both cases.
mod Once
mod Tests
use my_kernel.Prelude.{ℕ, Bool, true, false, Option, none, some, if◌then◌else◌, List, [], ◌∷◌}

pub record PostStackState : Type 0 where
  pub rsdp_phys : Option ℕ
  pub boot_stack_region : Option (ℕ × ℕ)

pub record Cell : Type 0 where
  pub stored : Bool
  pub taken : Bool
  pub cell : Option PostStackState

abbrev pub initial : Cell
initial = record { stored = false; taken = false; cell = none }

pub data Answer : Type 0 where
  panicked : Answer
  stored_it : Answer
  took : PostStackState → Answer

unfoldable pub store : Cell → PostStackState → Answer × Cell
store c state =
    if c.stored
    then (panicked, record c { stored = true })
    else (stored_it, record c { stored = true; cell = some state })

unfoldable pub take_cell : Option PostStackState → Cell → Answer × Cell
take_cell none c = (panicked, c)
take_cell (some state) c = (took state, record c { cell = none })

unfoldable pub take : Cell → Answer × Cell
unfolding take_cell
take c =
    if c.stored
    then (if c.taken
        then (panicked, record c { taken = true })
        else take_cell c.cell (record c { taken = true }))
    else (panicked, c)

pub data Call : Type 0 where
  storing : PostStackState → Call
  taking : Call

unfoldable pub call : Call → Cell → Answer × Cell
unfolding store take
call (storing state) c = store c state
call taking c = take c

-- The answers of a sequence of calls, and the cell after it.
unfoldable pub run : List Call → Cell → List Answer × Cell
unfolding call
run [] c = ([], c)
run (k ∷ ks) c = let (a, c₁) = call k c in let (answers, c₂) = run ks c₁ in (a ∷ answers, c₂)
