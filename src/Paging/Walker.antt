-- ===== src/Paging/Walker.antt =====
-- `PageTableWalker` of mantle/src/walker.rs.
use my_kernel.Prelude.{
  ℕ, zero, suc, ◌+◌, ◌-◌, ◌*◌, ◌/◌, ◌^◌, not, ◌&&◌, ◌||◌, Option, none, some, ◌∷◌, ◌==◌,
  if◌then◌else◌, ◌≡◌, ap, update, bit_and, bit_or,
}
use my_kernel.Word.{add64, sub64}
use my_kernel.Paging.{Paging, read, write, zeroed, Memory, page_bytes}
use my_kernel.Paging.Frames.{FrameSource}

pub data MapError : Type 0 where
  out_of_frames misaligned : MapError

pub data Result {ℓ} (A : Type ℓ) : Type ℓ where
  ok : A → Result A
  err : MapError → Result A

-- The value of the register IA32_PAT that `init_pat` writes: one byte for each index.
unfoldable pub pat_value : ℕ
pat_value =
    bit_or
      (bit_or
        (bit_or
          (bit_or (bit_or (bit_or (bit_or 0x06 (0x04 * 2 ^ 8)) (0x07 * 2 ^ 16)) (0x00 * 2 ^ 24))
            (0x06 * 2 ^ 32))
          (0x04 * 2 ^ 40))
        (0x07 * 2 ^ 48))
      (0x01 * 2 ^ 56)

unfoldable pub init_pat : {S : Type 0} → Memory S → Memory S
unfolding pat_value
init_pat m = record m { ia32_pat = some pat_value }

module _ (p : Paging) {hhdm : ℕ} (source : FrameSource hhdm) where
  abbrev pub Mem : Type 0
  Mem = Memory source.State

  abbrev pub M : Type 0 → Type 0
  M A = Mem → Result A × Mem

  infixl 5 ◌>>=◌
  abbrev pub ◌>>=◌ : {A B : Type 0} → M A → (A → M B) → M B
  ◌>>=◌ c f m = let (r, m') = c m in elim r [ ok a ↦ f a m' | err e ↦ (err e, m') ]

  pub >>=-ok :
      {A B : Type 0} (c : M A) (f : A → M B) (m m' : Mem) (a : A)
      → c m ≡ (ok a, m')
      → (c >>= f) m ≡ f a m'
  >>=-ok c f m m' a h = ap (λ r. elim r.0 [ ok a ↦ f a r.1 | err e ↦ (err e, r.1) ]) h

  pub >>=-err :
      {A B : Type 0} (c : M A) (f : A → M B) (m m' : Mem) (e : MapError)
      → c m ≡ (err e, m')
      → (c >>= f) m ≡ (err e, m')
  >>=-err c f m m' e h = ap (λ r. elim r.0 [ ok a ↦ f a r.1 | err e ↦ (err e, r.1) ]) h

  -- `cr3 & !0xFFF`
  unfoldable pub pml4_phys : Mem → ℕ
  pml4_phys m = bit_and m.cr3 (2 ^ 64 - 1 - 0xFFF)

  -- The entry for an address in the table at a physical address.
  unfoldable pub entry : Mem → (table vaddr level : ℕ) → ℕ
  unfolding read
  entry m table vaddr level = read (m.tables table) (p.vaddr_pt_index vaddr level)

  -- A write of the entry for an address.
  unfoldable pub set_entry : Mem → (table vaddr level value : ℕ) → Mem
  unfolding write
  set_entry m table vaddr level value = record m {
    tables = update m.tables table (write (m.tables table) (p.vaddr_pt_index vaddr level) value);
  }

  -- What became of a request for a frame: its table is zeroed.
  abbrev pub table_frame : Option ℕ → source.State → M ℕ
  table_frame none rest m = (err out_of_frames, record m { frames = rest })
  table_frame (some virt) rest m =
      let phys = sub64 virt hhdm in
      (ok phys, record m { frames = rest; tables = update m.tables phys (zeroed (m.tables phys)) })

  -- The physical address of a fresh frame.
  unfoldable pub alloc_table_frame : M ℕ
  unfolding zeroed
  alloc_table_frame m = let (frame, rest) = source.alloc m.frames in table_frame frame rest m

  unfoldable pub table_flags : ℕ
  table_flags = bit_or p.present p.writable

  -- Makes a fresh table the one that the entry points to.
  unfoldable pub create : (table vaddr level : ℕ) → M ℕ
  unfolding alloc_table_frame set_entry table_flags
  create table vaddr level = alloc_table_frame >>= λ phys m.
      (ok phys, set_entry m table vaddr level (p.pte_encode phys page_bytes table_flags))

  unfoldable pub descend_or_create : (table vaddr level : ℕ) → M ℕ
  unfolding entry create
  descend_or_create table vaddr level m =
      if p.pte_is_present (entry m table vaddr level)
      then (ok (p.pte_phys_addr (entry m table vaddr level) page_bytes), m)
      else create table vaddr level m

  -- The three tables on the way to the leaf, created where they are missing.
  unfoldable pub descend : (vaddr : ℕ) → M ℕ
  unfolding pml4_phys descend_or_create
  descend vaddr m =
      (do
        pdpt ← descend_or_create (pml4_phys m) vaddr 4
        pd ← descend_or_create pdpt vaddr 3
        descend_or_create pd vaddr 2)
        m

  -- The frame that an entry held before.
  unfoldable pub old_frame : ℕ → Option ℕ
  old_frame e = if p.pte_is_present e then some (p.pte_phys_addr e page_bytes) else none

  -- `invlpg`
  abbrev pub invlpg : Mem → (vaddr : ℕ) → Mem
  invlpg m vaddr = record m { invalidated = vaddr ∷ m.invalidated }

  -- The leaf's write at the end of `map`.
  unfoldable pub write_leaf : (table vaddr phys prot : ℕ) → M (Option ℕ)
  unfolding entry set_entry old_frame
  write_leaf table vaddr phys prot m = (
    ok (old_frame (entry m table vaddr 1)),
    invlpg (set_entry m table vaddr 1 (p.pte_encode phys page_bytes (bit_or p.present prot))) vaddr,
  )

  unfoldable pub map : (vaddr phys prot : ℕ) → M (Option ℕ)
  unfolding descend write_leaf
  map vaddr phys prot m =
      if not (bit_and vaddr (page_bytes - 1) == 0) || not (bit_and phys (page_bytes - 1) == 0)
      then (err misaligned, m)
      else (descend vaddr >>= λ pt. write_leaf pt vaddr phys prot) m

  -- The next table on the way of an address, unless the entry is absent or a huge page.
  unfoldable pub walk_existing : Mem → (table vaddr level : ℕ) → Option ℕ
  unfolding entry
  walk_existing m table vaddr level =
      if p.pte_is_present (entry m table vaddr level)
        && not (p.pte_is_huge (entry m table vaddr level))
      then some (p.pte_phys_addr (entry m table vaddr level) page_bytes)
      else none

  unfoldable pub unmap : Mem → (vaddr : ℕ) → Mem
  unfolding pml4_phys walk_existing set_entry
  unmap m vaddr = elim (walk_existing m (pml4_phys m) vaddr 4) [
    | none ↦ m
    | some pdpt ↦ elim (walk_existing m pdpt vaddr 3) [
      | none ↦ m
      | some pd ↦ elim (walk_existing m pd vaddr 2) [
        | none ↦ m
        | some pt ↦ invlpg (set_entry m pt vaddr 1 0) vaddr
      ]
    ]
  ]

  -- The address that a page of `size` bytes at an entry gives.
  abbrev pub in_page : (e size vaddr : ℕ) → ℕ
  in_page e size vaddr = add64 (p.pte_phys_addr e size) (bit_and vaddr (size - 1))

  unfoldable pub translate : Mem → (vaddr : ℕ) → Option ℕ
  unfolding pml4_phys entry
  translate m vaddr =
      let pdpt_entry = entry m (pml4_phys m) vaddr 4 in
      let pd_entry = entry m (p.pte_phys_addr pdpt_entry page_bytes) vaddr 3 in
      let pt_entry = entry m (p.pte_phys_addr pd_entry page_bytes) vaddr 2 in
      let leaf = entry m (p.pte_phys_addr pt_entry page_bytes) vaddr 1 in
      if not (p.pte_is_present pdpt_entry)
      then none
      else (if not (p.pte_is_present pd_entry)
          then none
          else (if p.pte_is_huge pd_entry
              then some (in_page pd_entry 0x40000000 vaddr)
              else (if not (p.pte_is_present pt_entry)
                  then none
                  else (if p.pte_is_huge pt_entry
                      then some (in_page pt_entry 0x200000 vaddr)
                      else (if not (p.pte_is_present leaf)
                          then none
                          else some (in_page leaf page_bytes vaddr))))))

  -- The loop of `map_mmio`, over the `pages` pages from number `i`.
  unfoldable pub map_pages : (pages i virt_start phys_start prot : ℕ) → M (Unit {0})
  unfolding map
  map_pages zero i virt_start phys_start prot m = (ok tt, m)
  map_pages (suc pages) i virt_start phys_start prot m =
      let rest = map_pages pages (i + 1) virt_start phys_start prot in
      (map (add64 virt_start (i * page_bytes)) (add64 phys_start (i * page_bytes)) prot >>= λ old.
      rest)
        m

  unfoldable pub map_mmio : (virt_start phys_start size prot : ℕ) → M (Unit {0})
  unfolding map_pages
  map_mmio virt_start phys_start size prot =
      map_pages (add64 size (page_bytes - 1) / page_bytes) 0 virt_start phys_start prot
