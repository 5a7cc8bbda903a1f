-- ===== src/Interrupts/AckLaws.antt =====
-- Which interrupts are acknowledged, and which registered handlers they run: src/interrupts/handlers.rs with
-- pic.rs and dispatch.rs.
use my_kernel.Prelude.{
  ℕ, ◌^◌, ◌≡◌, refl, ap, ◌∙◌, arith, List, [], ◌∷◌, ◌++◌, Bool, not, Bool-cases, inl, inr, ◌==◌,
  if◌then◌else◌, bit_and,
}
use my_kernel.Bits.{bit_at, bit_at-eq-shift}
use my_kernel.Bits.Masks.{bit_and-high}
use my_kernel.Interrupts.{
  Device, Event, called, wrote, read, eoi, key_byte, Machine, log, record_vector, tick,
}
use my_kernel.Interrupts.DispatchLaws.{runs}
use my_kernel.Interrupts.Exceptions.{Handled, returned}
use my_kernel.Interrupts.HandlerLaws.{served, serve-served}
use my_kernel.Interrupts.Handlers.{
  timer_handler, keyboard_handler, rtc_handler, mouse_handler, ata_primary_handler,
  spurious_master_handler, ata_secondary_handler, apic_spurious_handler,
}
use my_kernel.Interrupts.Pic.{
  irq_in_service, end_of_interrupt, eoi_if_not_spurious_master, eoi_if_not_spurious_slave,
}

-- The vectors that a trace acknowledges, the last one first.
pub acknowledged : List Event → List ℕ
acknowledged [] = []
acknowledged (eoi v ∷ t) = v ∷ acknowledged t
acknowledged (_ ∷ t) = acknowledged t

-- The registered handlers that a trace calls, the last one first.
pub calls : List Event → List ℕ
calls [] = []
calls (called h ∷ t) = h ∷ calls t
calls (_ ∷ t) = calls t

-- The handler of the line, as a list of at most one.
abbrev pub installed : Machine → ℕ → List ℕ
installed m irq = if m.handlers irq == 0 then [] else (m.handlers irq ∷ [])

-- The interrupt returned, having acknowledged `vectors` and called `handlers`.
pub record Serves (m : Machine) (vectors handlers : List ℕ) (r : Handled) : Type 0 where
  pub after : Machine
  pub returns : r ≡ returned after
  pub acks : acknowledged after.trace ≡ vectors ++ acknowledged m.trace
  pub ran : calls after.trace ≡ handlers ++ calls m.trace

acknowledged-runs :
    (m : Machine) (irq : ℕ) (t : List Event) → acknowledged (runs m irq ++ t) ≡ acknowledged t
unfolding acknowledged
acknowledged-runs m irq t = elim (Bool-cases (m.handlers irq == 0)) [
  | inl free ↦ rw free refl
  | inr taken ↦ rw taken refl
]

calls-runs :
    (m : Machine) (irq : ℕ) (t : List Event) → calls (runs m irq ++ t) ≡ installed m irq ++ calls t
unfolding calls
calls-runs m irq t = elim (Bool-cases (m.handlers irq == 0)) [
  | inl free ↦ rw free refl
  | inr taken ↦ rw taken refl
]

-- The part that the handlers with a line have in common, from a machine `s` that `before` leaves.
serve-Serves :
    (m s : Machine) (irq v : ℕ)
    → acknowledged s.trace ≡ acknowledged m.trace
    → calls s.trace ≡ calls m.trace
    → (r : Handled) → r ≡ returned (served s irq v)
    → Serves m (v ∷ []) (installed s irq) r
unfolding acknowledged calls
serve-Serves m s irq v acks ran r h = record {
  after = served s irq v;
  returns = h;
  acks = ap (λ t. v ∷ t) (acknowledged-runs s irq s.trace ∙ acks);
  ran = calls-runs s irq s.trace ∙ ap (λ t. installed s irq ++ t) ran;
}

-- The answer of the controller's in-service register after the read command.
abbrev pub in_service_register : Device → Machine → ℕ → ℕ
in_service_register device m port = device (wrote port 0x0B ∷ m.trace) port

test_bit : (a : ℕ) → not (bit_and a (2 ^ 7) == 0) ≡ (bit_at a 7 == 1)
test_bit a = ground (arith, bit_and-high 7 1 a, bit_at-eq-shift 7 a)

-- The timer, keyboard, RTC, mouse and primary ATA interrupts return, acknowledge exactly their own vector, and
-- call exactly the handler that is registered for their line, the keyboard none.
pub irqs-Serves :
    (device : Device) (m : Machine)
    → Serves m (0x20 ∷ []) (installed m 0) (timer_handler m)
      × Serves m (0x21 ∷ []) [] (keyboard_handler device m)
      × Serves m (0x28 ∷ []) (installed m 8) (rtc_handler device m)
      × Serves m (0x2C ∷ []) (installed m 12) (mouse_handler device m)
      × Serves m (0x2E ∷ []) (installed m 14) (ata_primary_handler m)
unfolding timer_handler keyboard_handler rtc_handler mouse_handler ata_primary_handler record_vector
    tick end_of_interrupt acknowledged calls
irqs-Serves device m =
    let timed = tick (record_vector m 0x20) in
    let clocked = log (log (record_vector m 0x28) (wrote 0x70 0x0C)) (read 0x71) in
    let moved = log (record_vector m 0x2C) (read 0x60) in
    let disk = record_vector m 0x2E in
    (
      serve-Serves m timed 0 0x20 refl refl _ (serve-served timed 0 0x20 (omega arith)),
      record {
        after =
            log (log (log (record_vector m 0x21) (read 0x60)) (key_byte (device m.trace 0x60)))
              (eoi 0x21);
        returns = refl;
        acks = refl;
        ran = refl;
      },
      serve-Serves m clocked 8 0x28 refl refl _ (serve-served clocked 8 0x28 (omega arith)),
      serve-Serves m moved 12 0x2C refl refl _ (serve-served moved 12 0x2C (omega arith)),
      serve-Serves m disk 14 0x2E refl refl _ (serve-served disk 14 0x2E (omega arith)),
    )

module _ (device : Device) (m : Machine) where
  abbrev pub genuine : ℕ → Bool
  genuine port = bit_at (in_service_register device m port) 7 == 1

  spurious_master-Serves :
      Serves m (if genuine 0x20 then 0x27 ∷ [] else []) [] (spurious_master_handler device m)
  unfolding spurious_master_handler record_vector acknowledged calls irq_in_service end_of_interrupt
  spurious_master-Serves =
      let asked = log (log (record_vector m 0x27) (wrote 0x20 0x0B)) (read 0x20) in
      let test = test_bit (in_service_register device m 0x20) in
      elim (Bool-cases (genuine 0x20)) [
        | inl h ↦ rw h (record {
          after = log asked (eoi 0x27);
          returns = ap returned (rw (eoi_if_not_spurious_master, test ∙ h) refl);
          acks = refl;
          ran = refl;
        })
        | inr h ↦ rw h (record {
          after = asked;
          returns = ap returned (rw (eoi_if_not_spurious_master, test ∙ h) refl);
          acks = refl;
          ran = refl;
        })
      ]

  spurious_slave-Serves :
      Serves m (if genuine 0xA0 then 0x2F ∷ [] else (0x20 ∷ [])) [] (ata_secondary_handler device m)
  unfolding ata_secondary_handler record_vector acknowledged calls irq_in_service end_of_interrupt
  spurious_slave-Serves =
      let asked = log (log (record_vector m 0x2F) (wrote 0xA0 0x0B)) (read 0xA0) in
      let test = test_bit (in_service_register device m 0xA0) in
      elim (Bool-cases (genuine 0xA0)) [
        | inl h ↦ rw h (record {
          after = log asked (eoi 0x2F);
          returns = ap returned (rw (eoi_if_not_spurious_slave, test ∙ h) refl);
          acks = refl;
          ran = refl;
        })
        | inr h ↦ rw h (record {
          after = log asked (eoi 0x20);
          returns = ap returned (rw (eoi_if_not_spurious_slave, test ∙ h) refl);
          acks = refl;
          ran = refl;
        })
      ]

  -- A spurious interrupt of the master or of the local APIC is not acknowledged; one of the slave is, at the
  -- master only. An interrupt that bit 7 of the in-service register shows is genuine is acknowledged with its
  -- vector. None of them calls a registered handler.
  pub spurious-Serves :
      Serves m (if genuine 0x20 then 0x27 ∷ [] else []) [] (spurious_master_handler device m)
      × Serves m
          (if genuine 0xA0 then 0x2F ∷ [] else (0x20 ∷ []))
          []
          (ata_secondary_handler device m)
      × Serves m [] [] (apic_spurious_handler m)
  unfolding apic_spurious_handler record_vector
  spurious-Serves = (
    spurious_master-Serves,
    spurious_slave-Serves,
    record { after = record_vector m 0xFF; returns = refl; acks = refl; ran = refl },
  )
