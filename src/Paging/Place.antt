-- ===== src/Paging/Place.antt =====
-- One page of mantle/src/pml4.rs: the walks after it is mapped below a root, at the level of its entry.
use my_kernel.Prelude.{
  ℕ, suc, ◌+◌, ◌%◌, ◌^◌, ◌<◌, ◌≡◌, refl, ap, ◌∙◌, arith, true, false, ◌==◌, none, if◌then◌else◌,
  bit_or, ◌-◌,
}
use my_kernel.Bits.Masks.{bit_and-ones}
use my_kernel.Prelude.Panic.{Outcome, panic, ◌>>=◌}
use my_kernel.Prelude.Panic
use my_kernel.Paging.{Paging, IsX86, IsFrame, IsFlags, page_bytes, large}
use my_kernel.Paging.Frames.{FrameSource, Calls, Calls-weaken}
use my_kernel.Paging.Walker.{Mem, in_page, set_entry, Result}
use my_kernel.Paging.Lookup.{walk, huge_at, stops, prefix}
use my_kernel.Paging.Tree.{Tags, IsTree}
use my_kernel.Paging.Walk.{Walked, arrived, starved, walk_two, walk_three}
use my_kernel.Paging.Leaf.{leaf-IsTree, leaf-result}
use my_kernel.Paging.Map.{leaf-present}
use my_kernel.Paging.Expect.{expect, expect-two, expect-three}
use my_kernel.Paging.Pml4.{map_huge_page, map_small_page, huge_bytes, hhdm_flags}

module _ (p : Paging) (x : IsX86 p) {hhdm : ℕ} (source : FrameSource hhdm) (top : ℕ) where
  -- The entry `e` of a level serves the addresses of its page, and every other walk is as before.
  pub record Placed (l e v : ℕ) (m m' : Mem p source) : Type 1 where
    pub tags : Tags
    pub tree : IsTree p source top tags m'
    pub called : Calls source 3 m.frames m'.frames
    pub walks :
        {A : Type 0} (at_page : (level e : ℕ) → A) (gone : A) (w : ℕ)
        → walk p source at_page gone m' 4 top w ≡ (
            if prefix l w == prefix l v
            then at_page (suc l) e
            else walk p source at_page gone m 4 top w)

  -- The page is placed, or a frame was missing.
  pub data Places (l e v : ℕ) (m : Mem p source) : Outcome (Mem p source) → Type 1 where
    placed : (m' : Mem p source) → Placed l e v m m' → Places l e v m (Panic.ok m')
    no_frame :
        (s s' : source.State)
        → Calls source 3 m.frames s
        → source.alloc s ≡ (none, s')
        → Places l e v m panic

  module _ (l : ℕ) (hi : l < 4) (e : ℕ) (ends : stops p (suc l) e ≡ true)
      (present : p.pte_is_present e ≡ true) (g : Tags) (m : Mem p source) (v : ℕ) where
    pub Walked-Places :
        (r : Result ℕ × Mem p source)
        → Walked p x source top g m v (suc l) r
        → Places l e v m
            (expect p source r >>= λ a. Panic.ok (set_entry p source a.1 a.0 v (suc l) e))
    unfolding set_entry
    Walked-Places _ (starved m' g' grown s few given) = no_frame s m'.frames few given
    Walked-Places _ (arrived t m' a) = placed _ (record {
      tags = a.after;
      called = Calls-weaken source (4 - suc l) 3 m.frames m'.frames (omega arith) a.called;
      tree = leaf-IsTree p x source top l hi e ends a.after m' a.grown.tree t v a.at;
      walks = λ at_page gone w.
          leaf-result p x source top l hi e ends at_page gone g m v t m' a w ∙ rw present refl;
    })

  hhdm_flags_lem : hhdm_flags p source ≡ 2 ^ 63 + 0x183
  unfolding hhdm_flags
  hhdm_flags_lem =
      rw (x.present_is, x.writable_is, x.no_execute_is, x.huge_page_is, x.global_is) refl

  module _ (phys : ℕ) (frame : IsFrame huge_bytes phys) where
    abbrev hhdm_leaf : ℕ
    hhdm_leaf = p.pte_encode phys huge_bytes (hhdm_flags p source)

    hhdm_leaf_lem : hhdm_leaf ≡ p.pte_encode phys huge_bytes (2 ^ 63 + 0x183)
    hhdm_leaf_lem = ap (p.pte_encode phys huge_bytes) hhdm_flags_lem

    hhdm_leaf-present : p.pte_is_present hhdm_leaf ≡ true
    hhdm_leaf-present =
        ap p.pte_is_present hhdm_leaf_lem
        ∙ x.present_encode phys huge_bytes _ (large _ refl) frame refl

    hhdm_leaf-huge : p.pte_is_huge hhdm_leaf ≡ true
    hhdm_leaf-huge =
        ap p.pte_is_huge hhdm_leaf_lem ∙ x.huge_encode phys huge_bytes _ (large _ refl) frame refl

    hhdm_leaf-address : p.pte_phys_addr hhdm_leaf huge_bytes ≡ phys
    hhdm_leaf-address =
        ap (λ e. p.pte_phys_addr e huge_bytes) hhdm_leaf_lem
        ∙ x.phys_addr_encode phys huge_bytes _ (large _ refl) frame refl

    pub hhdm_leaf-in_page :
        (w : ℕ) → in_page p source hhdm_leaf huge_bytes w ≡ phys + w % huge_bytes
    hhdm_leaf-in_page w = omega (arith, hhdm_leaf-address, bit_and-ones 21 w, frame.fits)

  module _ (g : Tags) (m : Mem p source) (tree : IsTree p source top g m) (v phys : ℕ)
      (clear : huge_at p source m 4 top v ≡ false) where
    pub map_small_page-Places :
        (prot : ℕ)
        → IsFrame page_bytes phys
        → IsFlags prot
        → Places 0
            (p.pte_encode phys page_bytes (bit_or p.present prot))
            v
            m
            (map_small_page p source top v phys prot m)
    unfolding map_small_page
    map_small_page-Places prot frame flags =
        let e = p.pte_encode phys page_bytes (bit_or p.present prot) in
        rw (expect-three p source top v m) (
          Walked-Places 0 (omega arith) e refl (leaf-present p x source phys prot frame flags) g m v
            _ (walk_three p x source top g m v tree clear))

    pub map_huge_page-Places :
        IsFrame huge_bytes phys
        → Places 1
            (p.pte_encode phys huge_bytes (hhdm_flags p source))
            v
            m
            (map_huge_page p source top v phys m)
    unfolding map_huge_page
    map_huge_page-Places frame =
        let e = p.pte_encode phys huge_bytes (hhdm_flags p source) in
        rw (expect-two p source top v m) (
          Walked-Places 1 (omega arith) e (hhdm_leaf-huge phys frame) (hhdm_leaf-present phys frame)
            g m v _ (walk_two p x source top g m v tree clear))
