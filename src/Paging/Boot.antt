-- ===== src/Paging/Boot.antt =====
-- `install_kernel_pml4` of mantle/src/pml4.rs: the whole address space that the kernel has at start.
use my_kernel.Prelude.{ℕ, ◌-◌, ◌+◌, ◌*◌, ◌/◌, ◌%◌, ◌^◌, ◌≤◌, ◌≡◌, true, false, none, some, update}
use my_kernel.Prelude.Panic.{Outcome, panic}
use my_kernel.Prelude.Panic
use my_kernel.Word.{sub64}
use my_kernel.Paging.{Paging, IsX86, page_bytes}
use my_kernel.Paging.Frames.{FrameSource, Calls}
use my_kernel.Paging.Walker.{Mem, translate}
use my_kernel.Paging.Lookup.{prefix, with_table}
use my_kernel.Paging.Tree.{Tags}
use my_kernel.Paging.Map.{IsPaged}
use my_kernel.Paging.Pml4.{huge_bytes}
use my_kernel.Paging.Window.{in_window, windowed, Window}

module _ (p : Paging) (x : IsX86 p) {hhdm : ℕ} (source : FrameSource hhdm) where
  -- The tables are a tree with CR3 at its root, and an address of the kernel's image is translated into the image, one
  -- of the window at `hhdm` to its distance from `hhdm`, and every other address to nothing; or an
  -- allocation failed, behind at most three calls for each page and one for the root.
  pub data Installs (hhdm_pages image_first image_phys image_pages : ℕ) (m : Mem p source)
      : Outcome (Mem p source) → Type 0 where
    installed :
        (m' : Mem p source)
        → IsPaged p source m'
        → ((w : ℕ)
            → translate p source m' w
              ≡ windowed 0 image_first image_phys image_pages w
                  (windowed 1 (prefix 1 hhdm) 0 hhdm_pages w none))
        → Installs hhdm_pages image_first image_phys image_pages m (Panic.ok m')
    no_frame :
        (s s' : source.State)
        → Calls source (1 + 3 * (hhdm_pages + image_pages)) m.frames s
        → source.alloc s ≡ (none, s')
        → Installs hhdm_pages image_first image_phys image_pages m panic

  -- The tree of the fresh root alone.
  module _ (m : Mem p source) (virt : ℕ) (rest : source.State)
      (given : source.alloc m.frames ≡ (some virt, rest)) where
    abbrev c : ℕ
    c = sub64 virt hhdm

    abbrev m₁ : Mem p source
    m₁ = with_table p source m c rest

    abbrev root_tags : Tags
    root_tags = record { level = update (λ t. 0) c 4; prefix_of = λ t. 0 }

  -- The two windows as the source counts their pages.
  abbrev pub hhdm_pages : (phys_mem_size : ℕ) → ℕ
  hhdm_pages phys_mem_size = (phys_mem_size + (huge_bytes - 1)) / huge_bytes

  abbrev pub image_pages : (virt_start virt_end : ℕ) → ℕ
  image_pages virt_start virt_end = (virt_end - virt_start + (page_bytes - 1)) / page_bytes

  -- What the boot protocol promises of the window at `hhdm` and of the kernel's image: both are aligned, lie within
  -- the 48 bits of an address and the words, map existing physical addresses, and do not meet.
  pub record IsLayout (virt_start virt_end phys_start phys_mem_size : ℕ) : Type 0 where
    pub hhdm_aligned : hhdm % huge_bytes ≡ 0
    pub hhdm_low : prefix 1 hhdm + hhdm_pages phys_mem_size ≤ 2 ^ 27
    pub hhdm_fits : hhdm + hhdm_pages phys_mem_size * huge_bytes ≤ 2 ^ 64
    pub memory_fits : hhdm_pages phys_mem_size * huge_bytes ≤ 2 ^ 52
    pub start_aligned : virt_start % page_bytes ≡ 0
    pub phys_aligned : phys_start % page_bytes ≡ 0
    pub ordered : virt_start ≤ virt_end
    pub image_low : prefix 0 virt_start + image_pages virt_start virt_end ≤ 2 ^ 36
    pub image_fits : virt_start + image_pages virt_start virt_end * page_bytes ≤ 2 ^ 64
    pub image_phys_fits : phys_start + image_pages virt_start virt_end * page_bytes ≤ 2 ^ 52
    pub apart :
        (w : ℕ)
        → in_window 0 (prefix 0 virt_start) (image_pages virt_start virt_end) w ≡ true
        → in_window 1 (prefix 1 hhdm) (hhdm_pages phys_mem_size) w ≡ false

  module _ (virt_start virt_end phys_start phys_mem_size : ℕ)
      (layout : IsLayout virt_start virt_end phys_start phys_mem_size) where
    abbrev Outcomes : Mem p source → Outcome (Mem p source) → Type 0
    Outcomes =
        Installs (hhdm_pages phys_mem_size) (prefix 0 virt_start) phys_start
          (image_pages virt_start virt_end)

    module _ (m : Mem p source) (virt : ℕ) (rest : source.State)
        (given : source.alloc m.frames ≡ (some virt, rest)) where
      abbrev root : ℕ
      root = sub64 virt hhdm

      abbrev all_pages : ℕ
      all_pages = hhdm_pages phys_mem_size + image_pages virt_start virt_end
