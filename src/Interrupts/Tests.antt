-- ===== src/Interrupts/Tests.antt =====
-- The theorems on src/interrupts at concrete machines and devices.
use my_kernel.Prelude.{
  ℕ, ◌<◌, ◌%◌, ◌≡◌, refl, arith, List, [], ◌∷◌, none, false, All, ltb, ◌==◌, if◌then◌else◌,
}
use my_kernel.Interrupts.{
  Device, Event, called, wrote, read, eoi, ticked, key_byte, Machine, unregister, dispatch,
}
use my_kernel.Prelude.Panic.{ok}
use my_kernel.Interrupts.Handlers.{
  timer_handler, keyboard_handler, rtc_handler, mouse_handler, ata_primary_handler,
  spurious_master_handler, ata_secondary_handler, apic_spurious_handler,
}
use my_kernel.Interrupts.Pic.{mask_irq, unmask_irq, init}
use my_kernel.Interrupts.Apic.{Apic, disable_pic}
use my_kernel.Interrupts.Idt.{
  Slot, vector, exception_gates, irq_gates, divide_error, debug, non_maskable_interrupt, breakpoint,
  overflow, bound_range_exceeded, invalid_opcode, device_not_available, double_fault, invalid_tss,
  segment_not_present, stack_segment_fault, general_protection_fault, page_fault,
  x87_floating_point, alignment_check, machine_check, simd_floating_point, virtualization,
}
use my_kernel.Interrupts.DispatchLaws.{Registered, register-Registered, unregister-register}
use my_kernel.Interrupts.PicLaws.{IsImr, masked, mask_irq-masked, unmask_irq-masked, init-masked}
use my_kernel.Interrupts.HandlerLaws.{IsIntel, Counts, gates-Counts}
use my_kernel.Interrupts.AckLaws.{Serves, installed, genuine, irqs-Serves, spurious-Serves}
use my_kernel.Interrupts.ApicLaws.{disable_pic-masked, InitOnce, init_lapic-InitOnce}

abbrev quiet : Machine
quiet = record { counters = λ v. 0; handlers = λ i. 0; ticks = 0; trace = [] }

register-Registered_example : Registered quiet 3 77
register-Registered_example = register-Registered quiet 3 77 (omega arith) (λ e. omega arith) refl

unregister-register_example :
    (m' : Machine) × (unregister quiet 3 ≡ ok m') × (dispatch m' 3 ≡ ok m') × Registered m' 3 77
unregister-register_example = unregister-register quiet 3 77 (omega arith) (λ e. omega arith)

-- The mask registers of a device that answers 0 until they are written.
imr : Device
imr [] port = 0
imr (wrote p v ∷ t) port = if p == port then v % 256 else imr t port
imr (read p ∷ t) port = imr t port
imr (called h ∷ t) port = imr t port
imr (eoi v ∷ t) port = imr t port
imr (ticked ∷ t) port = imr t port
imr (key_byte c ∷ t) port = imr t port

imr-is_byte : (port : ℕ) (t : List Event) → imr t port < 256
unfolding imr
imr-is_byte port [] = omega arith
imr-is_byte port (wrote p v ∷ t) = ground (arith, imr-is_byte port t)
imr-is_byte port (read p ∷ t) = imr-is_byte port t
imr-is_byte port (called h ∷ t) = imr-is_byte port t
imr-is_byte port (eoi v ∷ t) = imr-is_byte port t
imr-is_byte port (ticked ∷ t) = imr-is_byte port t
imr-is_byte port (key_byte c ∷ t) = imr-is_byte port t

imr-IsImr : IsImr imr
unfolding imr
imr-IsImr = record {
  read_back_master = λ v t h. omega arith;
  read_back_slave = λ v t h. omega arith;
  master_kept = λ v t. refl;
  slave_kept = λ v t. refl;
  after_read = λ p q t. refl;
  is_byte = λ p t. imr-is_byte p t;
}

mask_irq-masked_example :
    masked imr (mask_irq imr quiet 9) 9 ≡ (if 9 == 9 then 1 else masked imr quiet 9)
mask_irq-masked_example = mask_irq-masked imr imr-IsImr quiet 9 (omega arith) 9 (omega arith)

unmask_irq-masked_example :
    masked imr (unmask_irq imr quiet 9) 9 ≡ (if 9 == 9 then 0 else masked imr quiet 9)
unmask_irq-masked_example = unmask_irq-masked imr imr-IsImr quiet 9 (omega arith) 9 (omega arith)

init-masked_example : masked imr (init (λ a b. []) quiet) 12 ≡ (if ltb 12 8 then 0 else 1)
init-masked_example = init-masked imr imr-IsImr (λ a b. []) quiet 12 (omega arith)

disable_pic-masked_example : masked imr (disable_pic quiet) 3 ≡ 1
disable_pic-masked_example = disable_pic-masked imr imr-IsImr quiet 3 (omega arith)

abbrev no_apic : Apic
no_apic = record { lapic = none; base_vaddr = 0; enabled = false }

init_lapic-InitOnce_example : InitOnce no_apic quiet 0x1000 0x2000
init_lapic-InitOnce_example = init_lapic-InitOnce no_apic quiet 0x1000 0x2000 refl

irqs-Serves_example :
    Serves quiet (0x20 ∷ []) (installed quiet 0) (timer_handler quiet)
    × Serves quiet (0x21 ∷ []) [] (keyboard_handler imr quiet)
    × Serves quiet (0x28 ∷ []) (installed quiet 8) (rtc_handler imr quiet)
    × Serves quiet (0x2C ∷ []) (installed quiet 12) (mouse_handler imr quiet)
    × Serves quiet (0x2E ∷ []) (installed quiet 14) (ata_primary_handler quiet)
irqs-Serves_example = irqs-Serves imr quiet

spurious-Serves_example :
    Serves quiet
      (if genuine imr quiet 0x20 then 0x27 ∷ [] else [])
      []
      (spurious_master_handler imr quiet)
    × Serves quiet
        (if genuine imr quiet 0xA0 then 0x2F ∷ [] else (0x20 ∷ []))
        []
        (ata_secondary_handler imr quiet)
    × Serves quiet [] [] (apic_spurious_handler quiet)
spurious-Serves_example = spurious-Serves imr quiet

-- The vectors of the processor's manual.
intel : Slot → ℕ
intel divide_error = 0
intel debug = 1
intel non_maskable_interrupt = 2
intel breakpoint = 3
intel overflow = 4
intel bound_range_exceeded = 5
intel invalid_opcode = 6
intel device_not_available = 7
intel double_fault = 8
intel invalid_tss = 10
intel segment_not_present = 11
intel stack_segment_fault = 12
intel general_protection_fault = 13
intel page_fault = 14
intel x87_floating_point = 16
intel alignment_check = 17
intel machine_check = 18
intel simd_floating_point = 19
intel virtualization = 20
intel (vector v) = v

intel-IsIntel : IsIntel intel
unfolding intel
intel-IsIntel = record {
  at_divide_error = refl;
  at_debug = refl;
  at_non_maskable_interrupt = refl;
  at_breakpoint = refl;
  at_overflow = refl;
  at_bound_range_exceeded = refl;
  at_invalid_opcode = refl;
  at_device_not_available = refl;
  at_double_fault = refl;
  at_invalid_tss = refl;
  at_segment_not_present = refl;
  at_stack_segment_fault = refl;
  at_general_protection_fault = refl;
  at_page_fault = refl;
  at_x87_floating_point = refl;
  at_alignment_check = refl;
  at_machine_check = refl;
  at_simd_floating_point = refl;
  at_virtualization = refl;
  at_vector = λ v. refl;
}

gates-Counts_example :
    All (λ g. Counts (intel g.slot) g.handler) exception_gates
    × All (λ g. Counts (intel g.slot) g.handler) (irq_gates imr)
gates-Counts_example = gates-Counts intel intel-IsIntel imr
