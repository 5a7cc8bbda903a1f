-- ===== src/Paging.antt =====
-- The kernel's page tables, the crate mantle: its walker (walker.rs), the tables that the kernel installs at
-- start (pml4.rs), one table (table.rs) and the protections (prot.rs). Tables are found by their physical
-- address; the window at `hhdm` through which the code reads them only shifts addresses. The crate `bitwise`,
-- which packs entries, and the allocator of frames are parameters.
pub mod Frames
pub mod Walker
pub mod Protection
pub mod Lookup
pub mod Tree
pub mod Create
pub mod Descend
pub mod Walk
pub mod Leaf
pub mod Map
pub mod Unmap
pub mod Mmio
pub mod Pml4
pub mod Expect
pub mod Place
pub mod Window
pub mod Install
pub mod Boot
pub mod Supply
mod SupplyTests
mod Tests
use my_kernel.Prelude.{
  ℕ, ◌+◌, ◌*◌, ◌/◌, ◌%◌, ◌^◌, ◌<◌, ◌≡◌, ◌⊎◌, Bool, false, Option, List, ◌==◌, update,
}

-- The functions and constants of `bitwise::paging` that the crate uses.
pub record Paging : Type 0 where
  pub pte_encode : (phys size flags : ℕ) → ℕ
  pub pte_is_present : ℕ → Bool
  pub pte_is_huge : ℕ → Bool
  pub pte_phys_addr : (entry size : ℕ) → ℕ
  pub vaddr_pt_index : (vaddr level : ℕ) → ℕ
  pub present : ℕ
  pub writable : ℕ
  pub write_through : ℕ
  pub cache_disable : ℕ
  pub huge_page : ℕ
  pub pat : ℕ
  pub global : ℕ
  pub no_execute : ℕ

-- The sizes of a page: 4 KiB, 2 MiB and 1 GiB.
pub data IsPageSize : ℕ → Type 0 where
  small : (n : ℕ) → n ≡ 0x1000 → IsPageSize n
  large : (n : ℕ) → n ≡ 0x200000 → IsPageSize n
  giant : (n : ℕ) → n ≡ 0x40000000 → IsPageSize n

-- A physical address that an entry can hold for a page of that size.
pub record IsFrame (size phys : ℕ) : Type 0 where
  pub aligned : phys % size ≡ 0
  pub fits : phys < 2 ^ 52

-- Flags without a bit in the address field of an entry, bits 12 to 51.
abbrev pub IsFlags : ℕ → Type 0
IsFlags flags = flags / 2 ^ 12 % 2 ^ 40 ≡ 0

-- What the processor's manual says of entries and of the four indices of an address.
pub record IsX86 (p : Paging) : Type 0 where
  pub absent_zero : p.pte_is_present 0 ≡ false
  pub phys_addr_encode :
      (phys size flags : ℕ)
      → IsPageSize size
      → IsFrame size phys
      → IsFlags flags
      → p.pte_phys_addr (p.pte_encode phys size flags) size ≡ phys
  pub present_encode :
      (phys size flags : ℕ)
      → IsPageSize size
      → IsFrame size phys
      → IsFlags flags
      → p.pte_is_present (p.pte_encode phys size flags) ≡ (flags % 2 == 1)
  pub huge_encode :
      (phys size flags : ℕ)
      → IsPageSize size
      → IsFrame size phys
      → IsFlags flags
      → p.pte_is_huge (p.pte_encode phys size flags) ≡ (flags / 2 ^ 7 % 2 == 1)
  pub phys_addr_word : (e size : ℕ) → p.pte_phys_addr e size < 2 ^ 64
  pub index_4 : (v : ℕ) → p.vaddr_pt_index v 4 ≡ v / 2 ^ 39 % 512
  pub index_3 : (v : ℕ) → p.vaddr_pt_index v 3 ≡ v / 2 ^ 30 % 512
  pub index_2 : (v : ℕ) → p.vaddr_pt_index v 2 ≡ v / 2 ^ 21 % 512
  pub index_1 : (v : ℕ) → p.vaddr_pt_index v 1 ≡ v / 2 ^ 12 % 512
  pub present_is : p.present ≡ 0x1
  pub writable_is : p.writable ≡ 0x2
  pub write_through_is : p.write_through ≡ 0x8
  pub cache_disable_is : p.cache_disable ≡ 0x10
  pub huge_page_is : p.huge_page ≡ 0x80
  pub pat_is : p.pat ≡ 0x80
  pub global_is : p.global ≡ 0x100
  pub no_execute_is : p.no_execute ≡ 2 ^ 63

-- `PageTable::entries`; every index is one of an address, below 512.
abbrev pub PageTable : Type 0
PageTable = ℕ → ℕ

-- `PageTable::read`
unfoldable pub read : PageTable → (index : ℕ) → ℕ
read t index = t index

-- `PageTable::write`
unfoldable pub write : PageTable → (index value : ℕ) → PageTable
write t index value = update t index value

-- `PageTable::zero`
unfoldable pub zeroed : PageTable → PageTable
zeroed t = λ index. 0

-- The tables by physical address, the register CR3, the allocator's state, the addresses whose translations
-- were dropped from the TLB, the last first, and the page attribute register.
pub record Memory (S : Type 0) : Type 0 where
  pub tables : ℕ → PageTable
  pub cr3 : ℕ
  pub frames : S
  pub invalidated : List ℕ
  pub ia32_pat : Option ℕ

abbrev pub page_bytes : ℕ
page_bytes = 0x1000
