-- ===== src/Interrupts/Apic.antt =====
-- The local interrupt controller, src/interrupts/apic.rs. Its registers are memory at `base + offset`, and a
-- register write is an event with the address as the port. `LAPIC` is set once.
use my_kernel.Prelude.{ℕ, ◌*◌, ◌^◌, Option, none, some, Bool, true, not, bit_and, bit_or, ◌==◌}
use my_kernel.Word.{add64}
use my_kernel.Interrupts.{wrote, Machine, log}

-- `LocalApic` is its base address.
pub record Apic : Type 0 where
  pub lapic : Option ℕ
  pub base_vaddr : ℕ
  pub enabled : Bool

-- `apic_supported`, of the `edx` that CPUID leaf 1 answers
unfoldable pub apic_supported : (edx : ℕ) → Bool
apic_supported edx = not (bit_and edx (2 ^ 9) == 0)

unfoldable pub write : (base : ℕ) → Machine → (offset value : ℕ) → Machine
write base m offset value = log m (wrote (add64 base offset) value)

-- `LocalApic::init`
unfoldable pub init : (base : ℕ) → Machine → (spurious_vector : ℕ) → Machine
unfolding write
init base m spurious_vector = write base m 0xF0 (bit_or spurious_vector (2 ^ 8))

unfoldable pub init_lapic : Apic → Machine → (vaddr : ℕ) → Apic × Machine
unfolding init
init_lapic a m vaddr = elim a.lapic [
  | none ↦ (record { lapic = some vaddr; base_vaddr = vaddr; enabled = true }, init vaddr m 0xFF)
  | some base ↦ (record { lapic = some base; base_vaddr = vaddr; enabled = true }, m)
]

-- `apic::get`
unfoldable pub get : Apic → Option ℕ
get a = a.lapic

-- `LocalApic::end_of_interrupt`
unfoldable pub end_of_interrupt : (base : ℕ) → Machine → Machine
unfolding write
end_of_interrupt base m = write base m 0xB0 0

unfoldable pub send_ipi : (base : ℕ) → Machine → (dest_apic_id vector : ℕ) → Machine
unfolding write
send_ipi base m dest_apic_id vector =
    write base (write base m 0x310 (dest_apic_id * 2 ^ 24)) 0x300 (bit_or vector (2 ^ 14))

unfoldable pub disable_pic : Machine → Machine
disable_pic m = log (log m (wrote 0xA1 0xFF)) (wrote 0x21 0xFF)
