-- ===== src/Interrupts/Vectors.antt =====
-- The vector numbers, src/interrupts/vectors.rs.
use my_kernel.Prelude.{ℕ, Bool, true, false}

abbrev pub exception_divide_error : ℕ
exception_divide_error = 0x00

abbrev pub exception_debug : ℕ
exception_debug = 0x01

abbrev pub exception_nmi : ℕ
exception_nmi = 0x02

abbrev pub exception_breakpoint : ℕ
exception_breakpoint = 0x03

abbrev pub exception_overflow : ℕ
exception_overflow = 0x04

abbrev pub exception_bound_range : ℕ
exception_bound_range = 0x05

abbrev pub exception_invalid_opcode : ℕ
exception_invalid_opcode = 0x06

abbrev pub exception_device_not_avail : ℕ
exception_device_not_avail = 0x07

abbrev pub exception_double_fault : ℕ
exception_double_fault = 0x08

abbrev pub exception_invalid_tss : ℕ
exception_invalid_tss = 0x0A

abbrev pub exception_segment_not_present : ℕ
exception_segment_not_present = 0x0B

abbrev pub exception_stack_segment : ℕ
exception_stack_segment = 0x0C

abbrev pub exception_general_protection : ℕ
exception_general_protection = 0x0D

abbrev pub exception_page_fault : ℕ
exception_page_fault = 0x0E

abbrev pub exception_x87_fp : ℕ
exception_x87_fp = 0x10

abbrev pub exception_alignment_check : ℕ
exception_alignment_check = 0x11

abbrev pub exception_machine_check : ℕ
exception_machine_check = 0x12

abbrev pub exception_simd_fp : ℕ
exception_simd_fp = 0x13

abbrev pub exception_virtualization : ℕ
exception_virtualization = 0x14

abbrev pub pic_irq_timer : ℕ
pic_irq_timer = 0x20

abbrev pub pic_irq_keyboard : ℕ
pic_irq_keyboard = 0x21

abbrev pub pic_irq_spurious_master : ℕ
pic_irq_spurious_master = 0x27

abbrev pub pic_irq_rtc : ℕ
pic_irq_rtc = 0x28

abbrev pub pic_irq_mouse : ℕ
pic_irq_mouse = 0x2C

abbrev pub pic_irq_ata_primary : ℕ
pic_irq_ata_primary = 0x2E

abbrev pub pic_irq_ata_secondary : ℕ
pic_irq_ata_secondary = 0x2F

abbrev pub apic_spurious : ℕ
apic_spurious = 0xFF

pub data InterruptVector : Type 0 where
  timer keyboard spurious_master rtc mouse ata_primary ata_secondary : InterruptVector

-- The `as_u8` of a vector, which `as_usize` equals.
unfoldable pub as_u8 : InterruptVector → ℕ
as_u8 timer = pic_irq_timer
as_u8 keyboard = pic_irq_keyboard
as_u8 spurious_master = pic_irq_spurious_master
as_u8 rtc = pic_irq_rtc
as_u8 mouse = pic_irq_mouse
as_u8 ata_primary = pic_irq_ata_primary
as_u8 ata_secondary = pic_irq_ata_secondary

unfoldable pub is_spurious : InterruptVector → Bool
is_spurious spurious_master = true
is_spurious ata_secondary = true
is_spurious _ = false
