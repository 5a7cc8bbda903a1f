-- ===== src/Interrupts/Pic.antt =====
-- The 8259 interrupt controllers, src/interrupts/pic.rs. The crate `pic8259` sends the commands of
-- `initialize` and of an end of interrupt: the latter is an event, and what the former writes is a
-- parameter.
use my_kernel.Prelude.{
  ℕ, ◌-◌, ◌*◌, ◌^◌, Bool, not, List, ◌++◌, ltb, ◌==◌, if◌then◌else◌, bit_and, bit_or,
}
use my_kernel.Interrupts.{Device, Event, wrote, read, eoi, Machine, log}

abbrev pub pic_1_offset : ℕ
pic_1_offset = 0x20

abbrev pub pic_2_offset : ℕ
pic_2_offset = 0x28

abbrev pub write_port : Machine → (port value : ℕ) → Machine
write_port m port value = log m (wrote port value)

abbrev pub read_port : Device → Machine → (port : ℕ) → ℕ × Machine
read_port device m port = (device m.trace port, log m (read port))

-- `pic::init`, where `initialize` is the trace of `ChainedPics::initialize` at the two offsets.
unfoldable pub init : (initialize : (offset_1 offset_2 : ℕ) → List Event) → Machine → Machine
init initialize m =
    let m₁ = record m { trace = initialize pic_1_offset pic_2_offset ++ m.trace } in
    write_port (write_port m₁ 0x21 0x00) 0xA1 0xFF

unfoldable pub end_of_interrupt : Machine → (vector : ℕ) → Machine
end_of_interrupt m vector = log m (eoi vector)

-- The data port of the controller that serves an IRQ line.
unfoldable pub mask_port : ℕ → ℕ
mask_port irq = if ltb irq 8 then 0x21 else 0xA1

-- The line's number at its controller, below 8 for the sixteen lines.
unfoldable pub line : ℕ → ℕ
line irq = if ltb irq 8 then irq else irq - 8

unfoldable pub mask_irq : Device → Machine → (irq : ℕ) → Machine
unfolding mask_port line
mask_irq device m irq =
    let (current, m₁) = read_port device m (mask_port irq) in
    write_port m₁ (mask_port irq) (bit_or current (2 ^ line irq))

-- `!x` of a `u8`
abbrev pub not8 : ℕ → ℕ
not8 x = 2 ^ 8 - 1 - x

unfoldable pub unmask_irq : Device → Machine → (irq : ℕ) → Machine
unfolding mask_port line
unmask_irq device m irq =
    let (current, m₁) = read_port device m (mask_port irq) in
    write_port m₁ (mask_port irq) (bit_and current (not8 (2 ^ line irq)))

unfoldable pub read_imr : Device → Machine → ℕ × Machine
read_imr device m =
    let (master, m₁) = read_port device m 0x21 in
    let (slave, m₂) = read_port device m₁ 0xA1 in (bit_or master (slave * 2 ^ 8), m₂)

unfoldable pub irq_in_service : Device → Machine → (irq : ℕ) → Bool × Machine
irq_in_service device m irq =
    let port = if ltb irq 8 then 0x20 else 0xA0 in
    let bit = if ltb irq 8 then irq else irq - 8 in
    let (isr, m₁) = read_port device (write_port m port 0x0B) port in
    (not (bit_and isr (2 ^ bit) == 0), m₁)

unfoldable pub eoi_if_not_spurious_master : Device → Machine → Machine
unfolding irq_in_service end_of_interrupt
eoi_if_not_spurious_master device m =
    let (in_service, m₁) = irq_in_service device m 7 in
    if in_service then end_of_interrupt m₁ 0x27 else m₁

unfoldable pub eoi_if_not_spurious_slave : Device → Machine → Machine
unfolding irq_in_service end_of_interrupt
eoi_if_not_spurious_slave device m =
    let (in_service, m₁) = irq_in_service device m 15 in
    if in_service then end_of_interrupt m₁ 0x2F else end_of_interrupt m₁ 0x20
