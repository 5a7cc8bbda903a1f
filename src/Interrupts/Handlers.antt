-- ===== src/Interrupts/Handlers.antt =====
-- The handlers of the hardware interrupts, src/interrupts/handlers.rs. A handler that a driver registered
-- is an event, and so is the byte that the keyboard decoder (crate `pc_keyboard`) is given.
use my_kernel.Prelude.Panic.{ok, panic}
use my_kernel.Interrupts.{Device, Machine, key_byte, log, record_vector, dispatch, tick}
use my_kernel.Interrupts.Exceptions.{Handled, returned, panicked}
use my_kernel.Interrupts.Pic.{
  read_port, write_port, end_of_interrupt, eoi_if_not_spurious_master, eoi_if_not_spurious_slave,
}
use my_kernel.Interrupts.Vectors.{
  pic_irq_timer, pic_irq_keyboard, pic_irq_spurious_master, pic_irq_rtc, pic_irq_mouse,
  pic_irq_ata_primary, pic_irq_ata_secondary, apic_spurious,
}
use my_kernel.Prelude.{ℕ}

-- Calls the handler that is registered for the line, then acknowledges the vector.
unfoldable pub serve : Machine → (irq vector : ℕ) → Handled
unfolding dispatch end_of_interrupt
serve m irq vector = elim (dispatch m irq) [
  | panic ↦ panicked m
  | ok m₁ ↦ returned (end_of_interrupt m₁ vector)
]

unfoldable pub timer_handler : Machine → Handled
unfolding record_vector tick serve
timer_handler m = serve (tick (record_vector m pic_irq_timer)) 0 pic_irq_timer

unfoldable pub apic_spurious_handler : Machine → Handled
unfolding record_vector
apic_spurious_handler m = returned (record_vector m apic_spurious)

unfoldable pub keyboard_handler : Device → Machine → Handled
unfolding record_vector end_of_interrupt
keyboard_handler device m =
    let (scancode, m₁) = read_port device (record_vector m pic_irq_keyboard) 0x60 in
    returned (end_of_interrupt (log m₁ (key_byte scancode)) pic_irq_keyboard)

unfoldable pub spurious_master_handler : Device → Machine → Handled
unfolding record_vector eoi_if_not_spurious_master
spurious_master_handler device m =
    returned (eoi_if_not_spurious_master device (record_vector m pic_irq_spurious_master))

unfoldable pub rtc_handler : Device → Machine → Handled
unfolding record_vector serve
rtc_handler device m =
    let m₁ = write_port (record_vector m pic_irq_rtc) 0x70 0x0C in
    let (c, m₂) = read_port device m₁ 0x71 in serve m₂ 8 pic_irq_rtc

unfoldable pub mouse_handler : Device → Machine → Handled
unfolding record_vector serve
mouse_handler device m =
    let (data_byte, m₁) = read_port device (record_vector m pic_irq_mouse) 0x60 in
    serve m₁ 12 pic_irq_mouse

unfoldable pub ata_primary_handler : Machine → Handled
unfolding record_vector serve
ata_primary_handler m = serve (record_vector m pic_irq_ata_primary) 14 pic_irq_ata_primary

unfoldable pub ata_secondary_handler : Device → Machine → Handled
unfolding record_vector eoi_if_not_spurious_slave
ata_secondary_handler device m =
    returned (eoi_if_not_spurious_slave device (record_vector m pic_irq_ata_secondary))
