-- ===== src/Paging/Protection.antt =====
-- mantle/src/prot.rs: the flags of the kernel's mappings, and the memory types that they select.
use my_kernel.Prelude.{
  ℕ, ◌+◌, ◌*◌, ◌/◌, ◌%◌, ◌^◌, ◌≡◌, refl, Bool, false, ◌&&◌, [], ◌∷◌, ◌==◌, bit_or, All,
}
use my_kernel.Paging.{Paging, IsX86, IsFlags}
use my_kernel.Paging.Walker.{pat_value}

-- The constants of `Protection`.
module _ (p : Paging) where
  unfoldable pub kernel_ro : ℕ
  kernel_ro = bit_or p.no_execute p.global

  unfoldable pub kernel_rw : ℕ
  kernel_rw = bit_or (bit_or p.writable p.no_execute) p.global

  unfoldable pub kernel_rx : ℕ
  kernel_rx = p.global

  unfoldable pub kernel_rwx_boot : ℕ
  kernel_rwx_boot = bit_or p.writable p.global

  unfoldable pub kernel_rwx : ℕ
  kernel_rwx = p.writable

  unfoldable pub mmio_uc : ℕ
  mmio_uc = bit_or (bit_or (bit_or p.writable p.no_execute) p.cache_disable) p.write_through

  unfoldable pub mmio_wc : ℕ
  mmio_wc =
      bit_or (bit_or (bit_or (bit_or p.writable p.no_execute) p.cache_disable) p.write_through)
        p.pat

-- The index into the page attribute table that a leaf's flags select: write-through, cache-disable and PAT.
unfoldable pub pat_index : (flags : ℕ) → ℕ
pat_index flags = flags / 2 ^ 3 % 2 + flags / 2 ^ 4 % 2 * 2 + flags / 2 ^ 7 % 2 * 4

-- The memory type at an index of the register's value, one byte for each.
unfoldable pub memory_type : (pat index : ℕ) → ℕ
memory_type pat index = pat / 2 ^ (8 * index) % 2 ^ 8

abbrev pub is_writable : (flags : ℕ) → Bool
is_writable flags = flags / 2 % 2 == 1

abbrev pub is_executable : (flags : ℕ) → Bool
is_executable flags = flags / 2 ^ 63 % 2 == 0

-- What a leaf with the flags is: none of its address's bits is one of them, and it has the memory type when the
-- register holds what `init_pat` writes.
pub record IsProtection (type flags : ℕ) : Type 0 where
  pub outside_address : IsFlags flags
  pub selects : memory_type pat_value (pat_index flags) ≡ type

module _ (p : Paging) (x : IsX86 p) where
  closed :
      (kernel_ro p ≡ 2 ^ 63 + 0x100)
      × (kernel_rw p ≡ 2 ^ 63 + 0x102)
      × (kernel_rx p ≡ 0x100)
      × (kernel_rwx_boot p ≡ 0x102)
      × (kernel_rwx p ≡ 0x2)
      × (mmio_uc p ≡ 2 ^ 63 + 0x1A)
      × (mmio_wc p ≡ 2 ^ 63 + 0x9A)
  unfolding kernel_ro kernel_rw kernel_rx kernel_rwx_boot kernel_rwx mmio_uc mmio_wc
  closed =
      rw
        (
          x.writable_is, x.no_execute_is, x.global_is, x.cache_disable_is, x.write_through_is,
          x.pat_is,
        )
        (refl, refl, refl, refl, refl, refl, refl)

  -- After `init_pat`, the kernel's protections select write-back memory (type 6), MMIO_UC uncacheable memory (type
  -- 0) and MMIO_WC write-combining memory (type 1); none of them sets a bit of the leaf's address; and but for the
  -- two RWX ones none is both writable and executable.
  pub protections-IsProtection :
      All
        (IsProtection 6)
        (kernel_ro p ∷ kernel_rw p ∷ kernel_rx p ∷ kernel_rwx_boot p ∷ kernel_rwx p ∷ [])
      × IsProtection 0 (mmio_uc p)
      × IsProtection 1 (mmio_wc p)
      × All
          (λ flags. (is_writable flags && is_executable flags) ≡ false)
          (kernel_ro p ∷ kernel_rw p ∷ kernel_rx p ∷ mmio_uc p ∷ mmio_wc p ∷ [])
  unfolding pat_index memory_type pat_value
  protections-IsProtection =
      let (ro, rwx, rx, boot, all, uc, wc) = closed in
      let ok : (type flags : ℕ)
          → IsFlags flags
          → memory_type pat_value (pat_index flags) ≡ type
          → IsProtection type flags =
        λ type flags a b. record { outside_address = a; selects = b } in
      rw (ro, rwx, rx, boot, all, uc, wc)
        (
          (
            ok 6 _ refl refl,
            (ok 6 _ refl refl, (ok 6 _ refl refl, (ok 6 _ refl refl, (ok 6 _ refl refl, tt)))),
          ),
          ok 0 _ refl refl,
          ok 1 _ refl refl,
          (refl, (refl, (refl, (refl, (refl, tt))))),
        )
