-- ===== src/Interrupts/Idt.antt =====
-- The interrupt descriptor table that src/interrupts/exceptions.rs installs, as the list of the gates it
-- sets. The slots are the named fields and the indices of the crate `x86_64`'s table.
use my_kernel.Prelude.{ℕ, Option, none, some, List, [], ◌∷◌}
use my_kernel.Interrupts.{Device, Machine}
use my_kernel.Interrupts.Exceptions.{
  Handled, divide_error_handler, debug_handler, nmi_handler, breakpoint_handler, overflow_handler,
  bound_range_handler, invalid_opcode_handler, device_not_available_handler, double_fault_handler,
  invalid_tss_handler, segment_not_present_handler, stack_segment_handler,
  general_protection_handler, page_fault_handler, x87_fp_handler, alignment_check_handler,
  machine_check_handler, simd_fp_handler, virtualization_handler,
}
use my_kernel.Interrupts.Handlers.{
  timer_handler, keyboard_handler, spurious_master_handler, rtc_handler, mouse_handler,
  ata_primary_handler, ata_secondary_handler, apic_spurious_handler,
}
use my_kernel.Interrupts.Vectors.{
  pic_irq_timer, pic_irq_keyboard, pic_irq_spurious_master, pic_irq_rtc, pic_irq_mouse,
  pic_irq_ata_primary, pic_irq_ata_secondary, apic_spurious,
}

pub data Slot : Type 0 where
  divide_error debug non_maskable_interrupt breakpoint overflow bound_range_exceeded
        invalid_opcode :
      Slot
  device_not_available double_fault invalid_tss segment_not_present stack_segment_fault
        general_protection_fault :
      Slot
  page_fault x87_floating_point alignment_check machine_check simd_floating_point virtualization :
      Slot
  vector : ℕ → Slot

-- The entries of the interrupt stack table, src/gdt.rs.
abbrev pub nmi_ist_index : ℕ
nmi_ist_index = 1

abbrev pub double_fault_ist_index : ℕ
double_fault_ist_index = 0

abbrev pub machine_check_ist_index : ℕ
machine_check_ist_index = 2

pub record Gate : Type 0 where
  pub slot : Slot
  pub handler : Machine → Handled
  pub stack : Option ℕ

abbrev gate : Slot → (Machine → Handled) → Option ℕ → Gate
gate slot handler stack = record { slot = slot; handler = handler; stack = stack }

abbrev pub exception_gates : List Gate
exception_gates =
    gate divide_error divide_error_handler none
    ∷ gate debug debug_handler none
    ∷ gate non_maskable_interrupt nmi_handler (some nmi_ist_index)
    ∷ gate breakpoint breakpoint_handler none
    ∷ gate overflow overflow_handler none
    ∷ gate bound_range_exceeded bound_range_handler none
    ∷ gate invalid_opcode invalid_opcode_handler none
    ∷ gate device_not_available device_not_available_handler none
    ∷ gate double_fault double_fault_handler (some double_fault_ist_index)
    ∷ gate invalid_tss invalid_tss_handler none
    ∷ gate segment_not_present segment_not_present_handler none
    ∷ gate stack_segment_fault stack_segment_handler none
    ∷ gate general_protection_fault general_protection_handler none
    ∷ gate page_fault page_fault_handler none
    ∷ gate x87_floating_point x87_fp_handler none
    ∷ gate alignment_check alignment_check_handler none
    ∷ gate machine_check machine_check_handler (some machine_check_ist_index)
    ∷ gate simd_floating_point simd_fp_handler none
    ∷ gate virtualization virtualization_handler none
    ∷ []

abbrev pub irq_gates : Device → List Gate
irq_gates device =
    gate (vector pic_irq_timer) timer_handler none
    ∷ gate (vector pic_irq_keyboard) (keyboard_handler device) none
    ∷ gate (vector pic_irq_spurious_master) (spurious_master_handler device) none
    ∷ gate (vector pic_irq_rtc) (rtc_handler device) none
    ∷ gate (vector pic_irq_mouse) (mouse_handler device) none
    ∷ gate (vector pic_irq_ata_primary) ata_primary_handler none
    ∷ gate (vector pic_irq_ata_secondary) (ata_secondary_handler device) none
    ∷ gate (vector apic_spurious) apic_spurious_handler none
    ∷ []
