-- ===== src/PostStack/Once.antt =====
-- What any sequence of calls of src/post_stack_state.rs answers.
use my_kernel.Prelude.{true, false, none, some, List, [], ◌∷◌}
use my_kernel.PostStack.{
  PostStackState, Cell, initial, Answer, panicked, stored_it, took, Call, storing, taking,
}

-- The calls' protocol: the cell is empty, then holds what the first `store` was given, then is spent.
pub data Phase : Type 0 where
  empty spent : Phase
  holding : PostStackState → Phase

pub answer : Phase → Call → Answer × Phase
answer empty (storing s) = (stored_it, holding s)
answer empty taking = (panicked, empty)
answer (holding s) (storing t) = (panicked, holding s)
answer (holding s) taking = (took s, spent)
answer spent k = (panicked, spent)

pub answers : Phase → List Call → List Answer
unfolding answer
answers p [] = []
answers p (k ∷ ks) = let (a, p') = answer p k in a ∷ answers p' ks

-- The cell that a phase stands for.
pub cell_of : Phase → Cell
cell_of empty = initial
cell_of (holding s) = record { stored = true; taken = false; cell = some s }
cell_of spent = record { stored = true; taken = true; cell = none }
