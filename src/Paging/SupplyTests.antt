-- ===== src/Paging/SupplyTests.antt =====
-- The page tables on the buddy allocator with sixteen free pages at 1 MiB.
use my_kernel.Prelude.{ℕ, ◌≡◌, refl, arith, update, ◌∷◌}
use my_kernel.Links.{Links}
use my_kernel.Buddy.Cover.{cover}
use my_kernel.Buddy.Free.{freed, freed-IsValid}
use my_kernel.Buddy.Region.{no_lists, based, based-IsValid, set_base-new}
use my_kernel.Paging.Frames.{FrameSource}
use my_kernel.Paging.Supply.{IsWindow, Serving, frames}

abbrev links : Links
links = record { prev = λ p. 7; next = λ p. 7 }

abbrev first_page : ℕ
first_page = 0x100000

no_cover : (x : ℕ) → cover no_lists x ≡ 0
no_cover = (set_base-new links first_page (omega arith) refl (omega arith)).2

abbrev sixteen : Serving first_page
sixteen = record {
  allocator = freed (based links first_page) 0 4;
  lists = update no_lists 4 (0 ∷ no_lists 4);
  valid =
      freed-IsValid (based-IsValid links first_page (omega arith) (omega arith)) 0 4 (omega arith)
        refl (omega arith) (λ x. ground (arith, no_cover x));
  based = refl;
}

-- All memory lies in a window at address 0.
sixteen-IsWindow : IsWindow 0 first_page
sixteen-IsWindow = record {
  word = omega arith;
  above = omega arith;
  aligned = refl;
  fits = omega arith;
}

abbrev kernel_frames : FrameSource 0
kernel_frames = frames first_page 0 sixteen-IsWindow
