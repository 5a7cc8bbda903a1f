-- ===== src/Stack.antt =====
-- src/memory/stack.rs: the kernel's stack is one block of the buddy allocator whose first page is unmapped as a guard.
pub mod Guarded
use my_kernel.Prelude.{ℕ, ◌+◌, ◌-◌, ◌*◌, ◌^◌, Option}
use my_kernel.Prelude.Panic.{Outcome, ok, ◌>>=◌}
use my_kernel.Word.{bit_length, trailing_zeros}
use my_kernel.Buddy.{BuddyAllocator, alloc_pages}
use my_kernel.Paging.{Paging}
use my_kernel.Paging.Frames.{FrameSource}
use my_kernel.Paging.Walker.{Mem, unmap}
use my_kernel.Heap.{expect}

-- `usize::next_power_of_two`
unfoldable pub next_power_of_two : ℕ → ℕ
next_power_of_two n = 2 ^ bit_length 64 (n - 1)

pub record KernelStack : Type 0 where
  pub top : ℕ
  pub guard_virt : ℕ

-- The order of the block.
unfoldable pub total_order : (min_pages : ℕ) → ℕ
total_order min_pages = trailing_zeros (next_power_of_two (min_pages + 1))

module _ (p : Paging) {hhdm : ℕ} (source : FrameSource hhdm) where
  unfoldable pub alloc_kernel_stack :
      (min_pages : ℕ)
      → BuddyAllocator
      → Mem p source
      → Outcome (KernelStack × BuddyAllocator × Mem p source)
  alloc_kernel_stack min_pages buddy m =
      let order = total_order min_pages in
      alloc_pages buddy order >>= λ (found, b'). expect found >>= λ base_virt. ok (
        record { top = base_virt + 2 ^ order * 0x1000; guard_virt = base_virt },
        b',
        unmap p source m base_virt,
      )
