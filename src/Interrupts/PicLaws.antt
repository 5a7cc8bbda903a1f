-- ===== src/Interrupts/PicLaws.antt =====
-- Masking of interrupt lines: src/interrupts/pic.rs. A mask register answers what was last written to it.
use native.Mathlib.Nat.{pow-le-pow_right}
use my_kernel.Prelude.{
  ℕ, ◌+◌, ◌-◌, ◌*◌, ◌^◌, ◌<◌, ◌≤◌, ◌≡◌, refl, ap, ◌∙◌, sym, arith, List, ◌∷◌, ◌++◌, Bool, true,
  false, ltb, ltb→lt, not, ◌==◌, if◌then◌else◌, bit_and, bit_or, two-pow-suc, two-pow-pos, inl, inr,
  Bool-cases,
}
use my_kernel.Bits.{bit_at, bit_at-zero, bit_at-and, bit_at-or, bit_at-two-pow, bit_at-lt}
use my_kernel.Bits.Bytes.{
  bit_at-past, bit_at-shift_low, bit_at-shift_high, bit_or-lt, bit_and-lt, bit_at-complement, ones,
}
use my_kernel.Interrupts.{Device, Event, wrote, read, Machine, log}
use my_kernel.Interrupts.Pic.{init, mask_port, line, mask_irq, unmask_irq, read_imr, not8}

-- The two mask registers hold bytes, answer what was last written, and nothing else changes them.
pub record IsImr (device : Device) : Type 0 where
  pub read_back_master : (v : ℕ) (t : List Event) → v < 256 → device (wrote 0x21 v ∷ t) 0x21 ≡ v
  pub read_back_slave : (v : ℕ) (t : List Event) → v < 256 → device (wrote 0xA1 v ∷ t) 0xA1 ≡ v
  pub master_kept : (v : ℕ) (t : List Event) → device (wrote 0xA1 v ∷ t) 0x21 ≡ device t 0x21
  pub slave_kept : (v : ℕ) (t : List Event) → device (wrote 0x21 v ∷ t) 0xA1 ≡ device t 0xA1
  pub after_read : (p q : ℕ) (t : List Event) → device (read p ∷ t) q ≡ device t q
  pub is_byte : (p : ℕ) (t : List Event) → device t p < 256

-- Bit `irq` of what `read_imr` returns: 1 if the line is masked.
abbrev pub masked : Device → Machine → ℕ → ℕ
masked device m irq = bit_at ((read_imr device m).0) irq

-- The bit of the register that serves the line.
own_bit : Device → Machine → ℕ → ℕ
own_bit device m irq = bit_at (device m.trace (mask_port irq)) (line irq)

-- `read_imr` puts the master's register below the slave's.
masked-own :
    (device : Device)
    → IsImr device
    → (m : Machine) (irq : ℕ) → irq < 16
    → masked device m irq ≡ own_bit device m irq
unfolding own_bit read_imr mask_port line
masked-own device d m irq lt =
    let master : ℕ = device m.trace 0x21 in
    let slave : ℕ = device m.trace 0xA1 in
    let either =
      ap (λ n. bit_at (bit_or master (n * 2 ^ 8)) irq) (d.after_read 0x21 0xA1 m.trace)
      ∙ bit_at-or irq master (slave * 2 ^ 8) in
    elim (Bool-cases (ltb irq 8)) [
      | inl low ↦
          let below : irq < 8 = ltb→lt _ _ low in
          rw low (either ∙ omega (arith, bit_at-shift_low 8 irq slave below))
      | inr high ↦
          let above : 8 ≤ irq = ground arith in
          let split : 8 + (irq - 8) ≡ irq = omega arith in
          let top = ap (bit_at (slave * 2 ^ 8)) (sym split) ∙ bit_at-shift_high 8 (irq - 8) slave in
          let none_low = bit_at-past master 8 irq (d.is_byte 0x21 m.trace) above in
          rw high (either ∙ omega (arith, top, none_low))
    ]

-- The mask of every line by the contents of the two registers.
pub masked-registers :
    (device : Device)
    → IsImr device
    → (m : Machine) (master slave irq : ℕ) → irq < 16
    → device m.trace 0x21 ≡ master
    → device m.trace 0xA1 ≡ slave
    → masked device m irq ≡ (if ltb irq 8 then bit_at master irq else bit_at slave (irq - 8))
unfolding own_bit mask_port line
masked-registers device d m master slave irq lt em es =
    masked-own device d m irq lt ∙ (elim (Bool-cases (ltb irq 8)) [
      | inl low ↦ rw (low, em) refl
      | inr high ↦ rw (high, es) refl
    ])

-- The machine after reading the mask register of a line and writing `v` to it.
abbrev rewritten : Machine → (irq v : ℕ) → Machine
rewritten m irq v = log (log m (read (mask_port irq))) (wrote (mask_port irq) v)

-- Whether two lines have the same controller.
abbrev same_chip : ℕ → ℕ → Bool
same_chip j irq = if ltb j 8 then ltb irq 8 else not (ltb irq 8)

-- A write to one line's register leaves the other controller's lines.
rewritten-own :
    (device : Device)
    → IsImr device
    → (m : Machine) (irq v j : ℕ) → v < 256
    → own_bit device (rewritten m irq v) j
      ≡ (if same_chip j irq then bit_at v (line j) else own_bit device m j)
unfolding own_bit mask_port
rewritten-own device d m irq v j small = elim (Bool-cases (ltb irq 8)) [
  | inl low ↦ elim (Bool-cases (ltb j 8)) [
    | inl jl ↦ rw (low, jl) (ap (λ n. bit_at n (line j)) (d.read_back_master v _ small))
    | inr jh ↦
        rw (low, jh)
          (ap (λ n. bit_at n (line j)) (d.slave_kept v _ ∙ d.after_read 0x21 0xA1 m.trace))
  ]
  | inr high ↦ elim (Bool-cases (ltb j 8)) [
    | inl jl ↦
        rw (high, jl)
          (ap (λ n. bit_at n (line j)) (d.master_kept v _ ∙ d.after_read 0xA1 0x21 m.trace))
    | inr jh ↦ rw (high, jh) (ap (λ n. bit_at n (line j)) (d.read_back_slave v _ small))
  ]
]

line-lt : (irq : ℕ) → irq < 16 → line irq < 8
unfolding line
line-lt irq lt = ground arith

-- Lines of one controller have the same number exactly when they are the same line.
line-eq :
    (j irq : ℕ) → j < 16 → irq < 16 → same_chip j irq ≡ true → (line j == line irq) ≡ (j == irq)
unfolding line
line-eq j irq hj hi h = ground arith

other_chip : (j irq : ℕ) → same_chip j irq ≡ false → (j == irq) ≡ false
other_chip j irq h = ground arith

byte_power : (s : ℕ) → s < 8 → 2 ^ s < 2 ^ 8
byte_power s lt =
    omega (arith, pow-le-pow_right {n = 2} (omega arith) lt, two-pow-suc s, two-pow-pos s)

module _ (device : Device) (d : IsImr device) (m : Machine) (irq : ℕ) (lt : irq < 16) where
  abbrev current : ℕ
  current = device m.trace (mask_port irq)

  same_register : (j : ℕ) → same_chip j irq ≡ true → own_bit device m j ≡ bit_at current (line j)
  unfolding own_bit mask_port
  same_register j h = elim (Bool-cases (ltb irq 8)) [
    | inl low ↦ let jl : ltb j 8 ≡ true = ground arith in rw (low, jl) refl
    | inr high ↦ let jh : ltb j 8 ≡ false = ground arith in rw (high, jh) refl
  ]

  -- What a byte written to the line's register makes of every line's bit.
  rewritten-masked :
      (v j : ℕ)
      → v < 256
      → j < 16
      → (bit : ℕ)
      → bit_at v (line j) ≡ (if line j == line irq then bit else bit_at current (line j))
      → masked device (rewritten m irq v) j ≡ (if j == irq then bit else masked device m j)
  rewritten-masked v j small hj bit h =
      let after =
        masked-own device d (rewritten m irq v) j hj ∙ rewritten-own device d m irq v j small in
      let before = masked-own device d m j hj in
      elim (Bool-cases (same_chip j irq)) [
        | inl same ↦
            after ∙ rw same (h ∙ rw (line-eq j irq hj lt same, before, same_register j same) refl)
        | inr other ↦ after ∙ rw (other, other_chip j irq other, before) refl
      ]

  -- `mask_irq` masks its line and leaves the other fifteen lines as they were.
  pub mask_irq-masked :
      (j : ℕ)
      → j < 16
      → masked device (mask_irq device m irq) j ≡ (if j == irq then 1 else masked device m j)
  unfolding mask_irq
  mask_irq-masked j hj =
      let bit : ℕ = 2 ^ line irq in
      let small =
        bit_or-lt 8 _ _ (d.is_byte (mask_port irq) m.trace) (byte_power _ (line-lt irq lt)) in
      rewritten-masked (bit_or current bit) j small hj 1 (
        ground (
          arith,
          bit_at-or (line j) current bit,
          bit_at-two-pow (line irq) (line j),
          bit_at-lt current (line j),
        ))

  -- `unmask_irq` unmasks its line and leaves the other fifteen lines as they were.
  pub unmask_irq-masked :
      (j : ℕ)
      → j < 16
      → masked device (unmask_irq device m irq) j ≡ (if j == irq then 0 else masked device m j)
  unfolding unmask_irq
  unmask_irq-masked j hj =
      let others : ℕ = not8 (2 ^ line irq) in
      let small = bit_and-lt 8 _ others (d.is_byte (mask_port irq) m.trace) in
      rewritten-masked (bit_and current others) j small hj 0 (
        ground (
          arith,
          bit_at-and (line j) current others,
          bit_at-complement (line irq) (line j) (line-lt irq lt) (line-lt j hj),
          bit_at-lt current (line j),
        ))

-- After `init` the lines of the master are unmasked and the lines of the slave are masked, whatever the crate's
-- `initialize` does.
pub init-masked :
    (device : Device)
    → IsImr device
    → (initialize : ℕ → ℕ → List Event) (m : Machine) (irq : ℕ) → irq < 16
    → masked device (init initialize m) irq ≡ (if ltb irq 8 then 0 else 1)
unfolding init
init-masked device d initialize m irq lt =
    let before = initialize 0x20 0x28 ++ m.trace in
    masked-registers device d (init initialize m) 0 255 irq lt
      (d.master_kept 255 _ ∙ d.read_back_master 0 before (omega arith))
      (d.read_back_slave 255 _ (omega arith))
    ∙ (elim (Bool-cases (ltb irq 8)) [
      | inl low ↦ rw low (bit_at-zero irq)
      | inr high ↦ rw high (ones (irq - 8) (omega arith))
    ])
