-- ===== src/Interrupts/DispatchLaws.antt =====
-- The registry of handlers, src/interrupts/dispatch.rs: what a call of `register`, `unregister` or `dispatch`
-- does to every line.
use my_kernel.Prelude.{
  ℕ, ◌<◌, ◌≡◌, ◌≢◌, refl, List, [], ◌∷◌, true, false, lt→ltb, eq→==, ne→==, ◌==◌, if◌then◌else◌,
  update,
}
use my_kernel.Prelude.Panic.{ok}
use my_kernel.Interrupts.{Event, called, Machine, log, irq_lines, register, unregister, dispatch}

-- The handler that a line runs, as a list of at most one.
abbrev pub runs : Machine → ℕ → List Event
runs m irq = if m.handlers irq == 0 then [] else (called (m.handlers irq) ∷ [])

-- A handler is registered on a free line: afterwards an interrupt of the line calls it once, the other lines
-- are as before, and a second registration is rejected with nothing changed.
pub record Registered (m : Machine) (irq handler : ℕ) : Type 0 where
  pub after : Machine
  pub accepted : register m irq handler ≡ ok (true, after)
  pub runs_it : dispatch after irq ≡ ok (log after (called handler))
  pub others : (line : ℕ) → line ≢ irq → after.handlers line ≡ m.handlers line
  pub rejects : (other : ℕ) → register after irq other ≡ ok (false, after)

-- Registering a handler on a free line below 16.
pub register-Registered :
    (m : Machine) (irq handler : ℕ)
    → irq < irq_lines
    → handler ≢ 0
    → m.handlers irq ≡ 0
    → Registered m irq handler
unfolding register dispatch
register-Registered m irq handler lt real free =
    let below = lt→ltb irq irq_lines lt in
    let same = eq→== irq irq refl in
    let full = ne→== handler 0 real in
    record {
      after = record m { handlers = update m.handlers irq handler };
      accepted = rw (below, free) refl;
      runs_it = rw (below, same, full) refl;
      others = λ line ne. rw (ne→== line irq ne) refl;
      rejects = λ other. rw (below, same, full) refl;
    }

-- `unregister` frees a line below 16: afterwards its interrupt calls nothing, and the line takes a new handler,
-- whatever was registered before.
pub unregister-register :
    (m : Machine) (irq handler : ℕ)
    → irq < irq_lines
    → handler ≢ 0
    → (m' : Machine) × (unregister m irq ≡ ok m')
      × (dispatch m' irq ≡ ok m')
      × Registered m' irq handler
unfolding unregister dispatch
unregister-register m irq handler lt real =
    let below = lt→ltb irq irq_lines lt in
    let same = eq→== irq irq refl in
    let m' = record m { handlers = update m.handlers irq 0 } in
    (
      m',
      rw below refl,
      rw (below, same) refl,
      register-Registered m' irq handler lt real (rw same refl),
    )
