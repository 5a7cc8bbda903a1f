-- ===== src/Interrupts.antt =====
-- The interrupt system, src/interrupts: counters per vector (stats.rs) and registered handlers per IRQ
-- line (dispatch.rs). The globals are one record, and what a handler does outside it is a trace, with
-- the last event first. A read of a port is answered by the device, a function of the trace.
pub mod Pic
pub mod Vectors
pub mod Exceptions
pub mod Handlers
pub mod Idt
pub mod Apic
mod DispatchLaws
mod PicLaws
mod HandlerLaws
mod AckLaws
mod ApicLaws
mod Tests
use my_kernel.Prelude.{ℕ, ◌+◌, Bool, List, ◌∷◌, ltb, ◌==◌, if◌then◌else◌, update, true, false}
use my_kernel.Prelude.Panic.{Outcome, ok, panic}
use my_kernel.Word.{add64}

pub data Event : Type 0 where
  called : ℕ → Event
  wrote : (port value : ℕ) → Event
  read : (port : ℕ) → Event
  eoi : (vector : ℕ) → Event
  ticked : Event
  key_byte : (scancode : ℕ) → Event

-- What a read of a port answers after a trace.
abbrev pub Device : Type 0
Device = List Event → ℕ → ℕ

pub record Machine : Type 0 where
  -- `COUNTERS` of stats.rs
  pub counters : ℕ → ℕ
  -- `HANDLERS` of dispatch.rs; 0 is the null pointer
  pub handlers : ℕ → ℕ
  -- `TICKS` of timer.rs
  pub ticks : ℕ
  pub trace : List Event

abbrev pub log : Machine → Event → Machine
log m e = record m { trace = e ∷ m.trace }

-- `stats::record`; `vector` is a `u8`, so the index is in range.
unfoldable pub record_vector : Machine → ℕ → Machine
record_vector m vector = record m {
  counters = update m.counters vector (add64 (m.counters vector) 1);
}

-- `stats::count`
unfoldable pub count : Machine → ℕ → ℕ
count m vector = m.counters vector

unfoldable pub reset_all : Machine → Machine
reset_all m = record m { counters = λ v. 0 }

-- The number of `HANDLERS`; an index past it panics.
abbrev pub irq_lines : ℕ
irq_lines = 16

-- `dispatch::register`: `true` for `Ok(())` and `false` for `Err(())`.
unfoldable pub register : Machine → (irq handler : ℕ) → Outcome (Bool × Machine)
register m irq handler =
    if ltb irq irq_lines
    then (if m.handlers irq == 0
        then ok (true, record m { handlers = update m.handlers irq handler })
        else ok (false, m))
    else panic

unfoldable pub unregister : Machine → (irq : ℕ) → Outcome Machine
unregister m irq =
    if ltb irq irq_lines then ok (record m { handlers = update m.handlers irq 0 }) else panic

unfoldable pub dispatch : Machine → (irq : ℕ) → Outcome Machine
dispatch m irq =
    if ltb irq irq_lines
    then (if m.handlers irq == 0 then ok m else ok (log m (called (m.handlers irq))))
    else panic

-- `timer::tick`
unfoldable pub tick : Machine → Machine
tick m = record m { ticks = add64 m.ticks 1; trace = ticked ∷ m.trace }
