-- ===== src/Interrupts/ApicLaws.antt =====
-- The local interrupt controller: src/interrupts/apic.rs.
use my_kernel.Prelude.{
  ℕ, ◌<◌, ◌≡◌, refl, ◌∙◌, ◌-◌, arith, ltb, ltb→lt, Bool-cases, inl, inr, none, some, ◌∷◌,
}
use my_kernel.Bits.Bytes.{ones}
use my_kernel.Word.{add64}
use my_kernel.Interrupts.{wrote, Machine, Device}
use my_kernel.Interrupts.Apic.{Apic, init_lapic, init, disable_pic, get, write}
use my_kernel.Interrupts.PicLaws.{IsImr, masked, masked-registers}

-- After `disable_pic` all sixteen lines are masked.
pub disable_pic-masked :
    (device : Device)
    → IsImr device
    → (m : Machine) (irq : ℕ) → irq < 16
    → masked device (disable_pic m) irq ≡ 1
unfolding disable_pic
disable_pic-masked device d m irq lt =
    masked-registers device d (disable_pic m) 255 255 irq lt
      (d.read_back_master 255 _ (omega arith))
      (d.slave_kept 255 _ ∙ d.read_back_slave 255 m.trace (omega arith))
    ∙ (elim (Bool-cases (ltb irq 8)) [
      | inl low ↦ rw low (ones irq (ltb→lt _ _ low))
      | inr high ↦ rw high (ones (irq - 8) (omega arith))
    ])

-- What two calls of `init_lapic` leave.
pub record InitOnce (a : Apic) (m : Machine) (first second : ℕ) : Type 0 where
  pub kept :
      get ((init_lapic ((init_lapic a m first).0) ((init_lapic a m first).1) second).0) ≡ some first
  pub wrote_once :
      ((init_lapic ((init_lapic a m first).0) ((init_lapic a m first).1) second).1).trace
      ≡ wrote (add64 first 0xF0) 0x1FF ∷ m.trace
  pub address_replaced :
      ((init_lapic ((init_lapic a m first).0) ((init_lapic a m first).1) second).0).base_vaddr
      ≡ second

-- The first `init_lapic` enables the controller by one write of the spurious vector with bit 8 set; a second one
-- keeps the first controller and writes nothing, but replaces the recorded address.
pub init_lapic-InitOnce :
    (a : Apic) (m : Machine) (first second : ℕ) → a.lapic ≡ none → InitOnce a m first second
unfolding init_lapic get init write
init_lapic-InitOnce a m first second free = (record {
  kept = rw free refl;
  wrote_once = rw free refl;
  address_replaced = rw free refl;
})
