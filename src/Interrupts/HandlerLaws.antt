-- ===== src/Interrupts/HandlerLaws.antt =====
-- What the interrupt handlers do, whatever the machine: src/interrupts/handlers.rs and exceptions.rs.
use my_kernel.Prelude.{ℕ, ◌≡◌, refl, ◌∷◌, All, Bool-cases, inl, inr, ◌==◌, update}
use my_kernel.Prelude.{◌<◌, ◌++◌, lt→ltb, arith, ap}
use my_kernel.Prelude.Panic.{ok}
use my_kernel.Word.{add64}
use my_kernel.Interrupts.DispatchLaws.{runs}
use my_kernel.Interrupts.{
  Device, wrote, read, eoi, Machine, record_vector, dispatch, tick, irq_lines, log,
}
use my_kernel.Interrupts.Exceptions.{
  Handled, returned, panicked, divide_error_handler, debug_handler, nmi_handler, breakpoint_handler,
  overflow_handler, bound_range_handler, invalid_opcode_handler, device_not_available_handler,
  double_fault_handler, invalid_tss_handler, segment_not_present_handler, stack_segment_handler,
  general_protection_handler, page_fault_handler, x87_fp_handler, alignment_check_handler,
  machine_check_handler, simd_fp_handler, virtualization_handler,
}
use my_kernel.Interrupts.Handlers.{
  timer_handler, keyboard_handler, spurious_master_handler, rtc_handler, mouse_handler,
  ata_primary_handler, ata_secondary_handler, apic_spurious_handler, serve,
}
use my_kernel.Interrupts.Pic.{
  irq_in_service, end_of_interrupt, eoi_if_not_spurious_master, eoi_if_not_spurious_slave,
}
use my_kernel.Interrupts.Idt.{
  Slot, vector, divide_error, debug, non_maskable_interrupt, breakpoint, overflow,
  bound_range_exceeded, invalid_opcode, device_not_available, double_fault, invalid_tss,
  segment_not_present, stack_segment_fault, general_protection_fault, page_fault,
  x87_floating_point, alignment_check, machine_check, simd_floating_point, virtualization,
  exception_gates, irq_gates,
}

-- The crate's fields are the exceptions of the processor's manual, and an index is the vector itself.
pub record IsIntel (number : Slot → ℕ) : Type 0 where
  pub at_divide_error : number divide_error ≡ 0
  pub at_debug : number debug ≡ 1
  pub at_non_maskable_interrupt : number non_maskable_interrupt ≡ 2
  pub at_breakpoint : number breakpoint ≡ 3
  pub at_overflow : number overflow ≡ 4
  pub at_bound_range_exceeded : number bound_range_exceeded ≡ 5
  pub at_invalid_opcode : number invalid_opcode ≡ 6
  pub at_device_not_available : number device_not_available ≡ 7
  pub at_double_fault : number double_fault ≡ 8
  pub at_invalid_tss : number invalid_tss ≡ 10
  pub at_segment_not_present : number segment_not_present ≡ 11
  pub at_stack_segment_fault : number stack_segment_fault ≡ 12
  pub at_general_protection_fault : number general_protection_fault ≡ 13
  pub at_page_fault : number page_fault ≡ 14
  pub at_x87_floating_point : number x87_floating_point ≡ 16
  pub at_alignment_check : number alignment_check ≡ 17
  pub at_machine_check : number machine_check ≡ 18
  pub at_simd_floating_point : number simd_floating_point ≡ 19
  pub at_virtualization : number virtualization ≡ 20
  pub at_vector : (v : ℕ) → number (vector v) ≡ v

-- The machine a handler leaves, whether it returns or panics.
abbrev pub machine : Handled → Machine
machine (returned m) = m
machine (panicked m) = m

-- The handler counts one interrupt of the vector `v`, and of no other.
pub Counts : ℕ → (Machine → Handled) → Type 0
Counts v handler =
    (m : Machine) → (machine (handler m)).counters ≡ update m.counters v (add64 (m.counters v) 1)

-- A step of a proof of `All`.
infixr 5 ◌&◌
◌&◌ {ℓ κ} : {A : Type ℓ} {B : Type κ} → A → B → A × B
a & b = (a, b)

-- Every exception's gate counts the vector that the processor raises for the gate's slot.
gates-Counts_exceptions :
    (number : Slot → ℕ)
    → IsIntel number
    → All (λ g. Counts (number g.slot) g.handler) exception_gates
unfolding Counts record_vector divide_error_handler debug_handler nmi_handler breakpoint_handler
    overflow_handler bound_range_handler invalid_opcode_handler device_not_available_handler
    double_fault_handler invalid_tss_handler segment_not_present_handler stack_segment_handler
    general_protection_handler page_fault_handler x87_fp_handler alignment_check_handler
    machine_check_handler simd_fp_handler virtualization_handler
gates-Counts_exceptions number n =
    (λ m. rw n.at_divide_error refl)
    & (λ m. rw n.at_debug refl)
    & (λ m. rw n.at_non_maskable_interrupt refl)
    & (λ m. rw n.at_breakpoint refl)
    & (λ m. rw n.at_overflow refl)
    & (λ m. rw n.at_bound_range_exceeded refl)
    & (λ m. rw n.at_invalid_opcode refl)
    & (λ m. rw n.at_device_not_available refl)
    & (λ m. rw n.at_double_fault refl)
    & (λ m. rw n.at_invalid_tss refl)
    & (λ m. rw n.at_segment_not_present refl)
    & (λ m. rw n.at_stack_segment_fault refl)
    & (λ m. rw n.at_general_protection_fault refl)
    & (λ m. rw n.at_page_fault refl)
    & (λ m. rw n.at_x87_floating_point refl)
    & (λ m. rw n.at_alignment_check refl)
    & (λ m. rw n.at_machine_check refl)
    & (λ m. rw n.at_simd_floating_point refl)
    & (λ m. rw n.at_virtualization refl)
    & tt

-- The machine after the line's registered handler, if there is one, and the acknowledgement.
abbrev pub served : Machine → (irq v : ℕ) → Machine
served m irq v = record m { trace = eoi v ∷ (runs m irq ++ m.trace) }

dispatch-runs :
    (m : Machine) (irq : ℕ)
    → irq < irq_lines
    → dispatch m irq ≡ ok (record m { trace = runs m irq ++ m.trace })
unfolding dispatch
dispatch-runs m irq lt = elim (Bool-cases (m.handlers irq == 0)) [
  | inl free ↦ rw (lt→ltb irq irq_lines lt, free) refl
  | inr taken ↦ rw (lt→ltb irq irq_lines lt, taken) refl
]

-- Serving a line below 16 never panics.
pub serve-served :
    (m : Machine) (irq v : ℕ) → irq < irq_lines → serve m irq v ≡ returned (served m irq v)
unfolding serve end_of_interrupt
serve-served m irq v lt = rw (serve, dispatch-runs m irq lt) refl

serve-counters :
    (m : Machine) (irq v : ℕ) → irq < irq_lines → (machine (serve m irq v)).counters ≡ m.counters
serve-counters m irq v lt = ap (λ r. (machine r).counters) (serve-served m irq v lt)

spurious_master-counters :
    (device : Device) (m : Machine) → (eoi_if_not_spurious_master device m).counters ≡ m.counters
unfolding eoi_if_not_spurious_master irq_in_service end_of_interrupt
spurious_master-counters device m = elim (Bool-cases (irq_in_service device m 7).0) [
  | inl h ↦ rw (eoi_if_not_spurious_master, h) refl
  | inr h ↦ rw (eoi_if_not_spurious_master, h) refl
]

spurious_slave-counters :
    (device : Device) (m : Machine) → (eoi_if_not_spurious_slave device m).counters ≡ m.counters
unfolding eoi_if_not_spurious_slave irq_in_service end_of_interrupt
spurious_slave-counters device m = elim (Bool-cases (irq_in_service device m 15).0) [
  | inl h ↦ rw (eoi_if_not_spurious_slave, h) refl
  | inr h ↦ rw (eoi_if_not_spurious_slave, h) refl
]

-- Every hardware interrupt's gate counts the vector of its index.
gates-Counts_irqs :
    (number : Slot → ℕ)
    → IsIntel number
    → (device : Device) → All (λ g. Counts (number g.slot) g.handler) (irq_gates device)
unfolding Counts record_vector tick end_of_interrupt timer_handler keyboard_handler
    spurious_master_handler rtc_handler mouse_handler ata_primary_handler ata_secondary_handler
    apic_spurious_handler
gates-Counts_irqs number n device =
    (λ m. rw (n.at_vector 0x20) (serve-counters (tick (record_vector m 0x20)) 0 0x20 (omega arith)))
    & (λ m. rw (n.at_vector 0x21) refl)
    & (λ m. rw (n.at_vector 0x27) (spurious_master-counters device (record_vector m 0x27)))
    & (λ m. rw (n.at_vector 0x28) (
        serve-counters (log (log (record_vector m 0x28) (wrote 0x70 0x0C)) (read 0x71)) 8 0x28
          (omega arith)))
    & (λ m.
        rw (n.at_vector 0x2C)
          (serve-counters (log (record_vector m 0x2C) (read 0x60)) 12 0x2C (omega arith)))
    & (λ m. rw (n.at_vector 0x2E) (serve-counters (record_vector m 0x2E) 14 0x2E (omega arith)))
    & (λ m. rw (n.at_vector 0x2F) (spurious_slave-counters device (record_vector m 0x2F)))
    & (λ m. rw (n.at_vector 0xFF) refl)
    & tt

-- If the slots have the processor's vectors, every gate that the kernel installs counts the vector of its own
-- slot once and counts no other, whether its handler returns or panics.
pub gates-Counts :
    (number : Slot → ℕ)
    → IsIntel number
    → (device : Device)
    → All (λ g. Counts (number g.slot) g.handler) exception_gates
      × All (λ g. Counts (number g.slot) g.handler) (irq_gates device)
gates-Counts number n device = (gates-Counts_exceptions number n, gates-Counts_irqs number n device)
