-- ===== src/Tlsf/Global.antt =====
-- `dealloc`, `add_pool` and the two functions of `GlobalAlloc` of abalone/src/tlsf.rs.
use my_kernel.Prelude.{
  ℕ, ◌+◌, ◌-◌, ◌*◌, ◌^◌, max, true, false, none, some, ltb, if◌then◌else◌, update, bit_and,
}
use my_kernel.Prelude.Panic.{Outcome, ok, ◌>>=◌, ◌>>◌, assert}
use my_kernel.Word.{add64, sub64}
use my_kernel.Links.{set_prev, set_next}
use my_kernel.Tlsf.{
  Tlsf, block_min, header_size, is_free, prev_free, set_size, set_prev_free, block_size, next_phys,
  write_size, write_prev_phys, insert_free, remove_free, alloc,
}

-- `combined`: the block in front takes over the one behind it.
abbrev pub join : Tlsf → (block behind : ℕ) → Tlsf
join t block behind = write_size t block (
    set_size (t.sizes block) (add64 (add64 (block_size t block) header_size) (block_size t behind)))

-- The first half of `dealloc`: the block in front, when it is free.
unfoldable pub merge_prev : Tlsf → (block : ℕ) → Outcome (ℕ × Tlsf)
merge_prev t block =
    let prev = t.prev_phys block in
    if prev_free (t.sizes block)
    then (remove_free t prev >>= λ t₁. ok (prev, join t₁ prev block))
    else ok (block, t)

-- The second half: the block behind, when it is free.
unfoldable pub merge_next : (merged : ℕ) → Tlsf → Outcome Tlsf
merge_next merged t =
    let next = next_phys t merged in
    if is_free (t.sizes next) then (remove_free t next >>= λ t₁. ok (join t₁ merged next)) else ok t

-- The merged block is listed, and the block behind is told.
unfoldable pub give_back : (merged : ℕ) → Tlsf → Outcome Tlsf
give_back merged t = insert_free t merged >>= λ t₁.
    let after = next_phys t₁ merged in
    ok (write_size t₁ after (set_prev_free (t₁.sizes after) true))

unfoldable pub dealloc : Tlsf → (ptr : ℕ) → Outcome Tlsf
dealloc t ptr = merge_prev t (sub64 ptr header_size) >>= λ (merged, t₁).
    merge_next merged t₁ >>= give_back merged

-- `ptr::write` of a header.
abbrev pub write_header : Tlsf → (block size : ℕ) → Tlsf
write_header t block size = record t {
  sizes = update t.sizes block size;
  prev_phys = update t.prev_phys block 0;
  links = set_prev (set_next t.links block 0) block 0;
}

-- Also `init_from_ptr`, which only takes the lock.
unfoldable pub add_pool : Tlsf → (mem size : ℕ) → Outcome Tlsf
add_pool t mem size =
    let sentinel = mem + (size - header_size) in
    let t₁ = write_header t sentinel 0 in
    let t₂ = write_header t₁ mem (size - 2 * header_size) in
    let t₃ = write_size t₂ mem (set_prev_free (t₂.sizes mem) false) in
    assert (ltb (2 * header_size + block_min) size)
    >> insert_free (write_prev_phys t₃ sentinel mem) mem

-- `GlobalAlloc::alloc`: the payload's address moved up to the layout's alignment; 0 is the null pointer.
unfoldable pub global_alloc : Tlsf → (size align : ℕ) → Outcome (ℕ × Tlsf)
global_alloc t size align =
    let extra = if ltb 8 align then align - 1 else 0 in
    alloc t (add64 (max size block_min) extra) >>= λ (found, t₁).
    ok (
      elim found [ none ↦ 0 | some ptr ↦ bit_and (add64 ptr extra) (2 ^ 64 - 1 - (align - 1)) ],
      t₁,
    )

-- `GlobalAlloc::dealloc`
unfoldable pub global_dealloc : Tlsf → (ptr : ℕ) → Outcome Tlsf
global_dealloc t ptr = dealloc t ptr
