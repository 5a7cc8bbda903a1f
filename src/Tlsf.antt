-- ===== src/Tlsf.antt =====
-- abalone/src/tlsf.rs, the allocator behind Box and Vec: free blocks in lists by size class, found through two levels
-- of bitmaps. `sizes`, `prev_phys` and `links` are the memory of the block headers, by the header's address;
-- `next_free` and `prev_free` are the two pointers of `links`.
pub mod Header
pub mod Mapping
pub mod Fit
pub mod Inv
pub mod Bitmaps
pub mod Insert
pub mod Remove
pub mod Find
pub mod Global
pub mod Merge
pub mod Join
pub mod Dealloc
pub mod Pool
pub mod Start
mod Tests
pub mod Split
pub mod Take
pub mod Alloc
use my_kernel.Prelude.{
  ℕ, ◌+◌, ◌-◌, ◌*◌, ◌/◌, ◌%◌, ◌^◌, max, Bool, true, false, not, Option, none, some, ◌==◌, leb, ltb,
  if◌then◌else◌, update, bit_and, bit_or, bit_xor,
}
use my_kernel.Prelude.Panic.{Outcome, ok, panic, ◌>>=◌, ◌>>◌, assert}
use my_kernel.Word.{add64, sub64, leading_zeros, low_zeros}
use my_kernel.Links.{Links, set_prev, set_next, push_front, unlink, unlink_head}

abbrev pub sl_index_count : ℕ
sl_index_count = 5

abbrev pub fl_index_count : ℕ
fl_index_count = 30

abbrev pub sl_count : ℕ
sl_count = 32

abbrev pub block_min : ℕ
block_min = 32

abbrev pub free_bit : ℕ
free_bit = 1

abbrev pub prev_phys_bit : ℕ
prev_phys_bit = 2

-- `size_of::<BlockHeader>()`
abbrev pub header_size : ℕ
header_size = 32

-- `TlsfInner` and the headers in memory
pub record Tlsf : Type 0 where
  pub fl_bitmap : ℕ
  pub sl_bitmap : ℕ → ℕ
  pub free_lists : (fl sl : ℕ) → ℕ
  pub sizes : ℕ → ℕ
  pub prev_phys : ℕ → ℕ
  pub links : Links

-- The methods of `BlockHeader` on the field `size`.
unfoldable pub size_bits : (size : ℕ) → ℕ
size_bits size = bit_and size (2 ^ 64 - 1 - bit_or free_bit prev_phys_bit)

unfoldable pub is_free : (size : ℕ) → Bool
is_free size = not (bit_and size free_bit == 0)

unfoldable pub prev_free : (size : ℕ) → Bool
prev_free size = not (bit_and size prev_phys_bit == 0)

unfoldable pub set_size : (size s : ℕ) → ℕ
set_size size s = bit_or (bit_and size (bit_or free_bit prev_phys_bit)) s

unfoldable pub set_free : (size : ℕ) → Bool → ℕ
set_free size f = if f then bit_or size free_bit else bit_and size (2 ^ 64 - 1 - free_bit)

unfoldable pub set_prev_free : (size : ℕ) → Bool → ℕ
set_prev_free size f =
    if f then bit_or size prev_phys_bit else bit_and size (2 ^ 64 - 1 - prev_phys_bit)

abbrev pub block_size : Tlsf → (block : ℕ) → ℕ
block_size t block = size_bits (t.sizes block)

-- `next_phys`: the header behind the block's payload.
abbrev pub next_phys : Tlsf → (block : ℕ) → ℕ
next_phys t block = block + header_size + block_size t block

-- `TlsfInner::new`, over the memory as it is.
unfoldable pub new : (sizes prev_phys : ℕ → ℕ) → Links → Tlsf
new sizes prev_phys links = record {
  fl_bitmap = 0;
  sl_bitmap = λ fl. 0;
  free_lists = λ fl sl. 0;
  sizes = sizes;
  prev_phys = prev_phys;
  links = links;
}

unfoldable pub mapping : (size : ℕ) → ℕ × ℕ
mapping size =
    let fl = sub64 (64 - 1) (leading_zeros size) in
    let sl =
      if ltb fl sl_index_count
      then size * 2 ^ (sl_index_count - fl)
      else size / 2 ^ (fl - sl_index_count) in
    (fl, bit_and sl (sl_count - 1))

unfoldable pub mapping_search : (size : ℕ) → ℕ × ℕ
mapping_search size =
    let round =
      if leb (2 ^ sl_index_count) size
      then 2 ^ (64 - 1 - leading_zeros size - sl_index_count) - 1
      else 0 in
    mapping (add64 size round)

-- `!(1 << k)` of a `u32`
abbrev pub not_bit : (k : ℕ) → ℕ
not_bit k = bit_xor (2 ^ 32 - 1) (2 ^ k)

abbrev pub write_size : Tlsf → (block size : ℕ) → Tlsf
write_size t block size = record t { sizes = update t.sizes block size }

abbrev pub write_prev_phys : Tlsf → (block p : ℕ) → Tlsf
write_prev_phys t block p = record t { prev_phys = update t.prev_phys block p }

abbrev pub write_head : Tlsf → (fl sl head : ℕ) → ℕ → ℕ → ℕ
write_head t fl sl head = update t.free_lists fl (update (t.free_lists fl) sl head)

unfoldable pub insert_free : Tlsf → (block : ℕ) → Outcome Tlsf
insert_free t block =
    let (fl, sl) = mapping (block_size t block) in
    assert (ltb fl fl_index_count)
    >> ok (record t {
      links = push_front t.links (t.free_lists fl sl) block;
      free_lists = write_head t fl sl block;
      fl_bitmap = bit_or t.fl_bitmap (2 ^ fl);
      sl_bitmap = update t.sl_bitmap fl (bit_or (t.sl_bitmap fl) (2 ^ sl));
      sizes = update t.sizes block (set_free (t.sizes block) true);
    })

-- The bitmaps after the head of a list has become `head`.
unfoldable pub clear_bits : Tlsf → (fl sl head : ℕ) → Tlsf
clear_bits t fl sl head =
    let second = bit_and (t.sl_bitmap fl) (not_bit sl) in
    if head == 0
    then record t {
      sl_bitmap = update t.sl_bitmap fl second;
      fl_bitmap = if second == 0 then bit_and t.fl_bitmap (not_bit fl) else t.fl_bitmap;
    }
    else t

unfoldable pub remove_free : Tlsf → (block : ℕ) → Outcome Tlsf
remove_free t block =
    let (fl, sl) = mapping (block_size t block) in
    let head = unlink_head t.links (t.free_lists fl sl) block in
    let cleared = clear_bits t fl sl head in
    assert (ltb fl fl_index_count)
    >> ok (record cleared {
      links = unlink t.links block;
      free_lists = write_head t fl sl head;
      sizes = update t.sizes block (set_free (t.sizes block) false);
    })

-- `n.trailing_zeros()` of a `u32`
abbrev pub trailing_zeros32 : ℕ → ℕ
trailing_zeros32 n = low_zeros 32 n

-- `free_lists[fl][sl]`
unfoldable pub list_head : Tlsf → (fl sl : ℕ) → Outcome (Option ℕ)
list_head t fl sl =
    assert (ltb fl fl_index_count) >> assert (ltb sl sl_count) >> ok (some (t.free_lists fl sl))

-- The search above the class's first level.
unfoldable pub find_above : Tlsf → (fl : ℕ) → Outcome (Option ℕ)
find_above t fl =
    let fl_map = t.fl_bitmap / 2 ^ (fl + 1) in
    let above = fl + (1 + trailing_zeros32 fl_map) in
    if fl_map == 0 then ok none else list_head t above (trailing_zeros32 (t.sl_bitmap above))

unfoldable pub find_free : Tlsf → (size : ℕ) → Outcome (Option ℕ)
find_free t size =
    let (fl, sl) = mapping_search size in
    let sl_map = t.sl_bitmap fl / 2 ^ sl in
    assert (ltb fl fl_index_count)
    >> (if sl_map == 0 then find_above t fl else list_head t fl (sl + trailing_zeros32 sl_map))

-- The size that is looked for: at least the minimum, and whole words.
unfoldable pub rounded : (size : ℕ) → ℕ
rounded size = bit_and (add64 (max size block_min) (8 - 1)) (2 ^ 64 - 1 - (8 - 1))

-- The last `remainder` bytes of a block become a free block, and `size` bytes stay.
unfoldable pub split : Tlsf → (block size remainder : ℕ) → Outcome Tlsf
split t block size remainder =
    let t₁ = write_size t block (set_size (t.sizes block) size) in
    let next = next_phys t₁ block in
    let t₂ = write_size t₁ next (set_size (t₁.sizes next) (remainder - header_size)) in
    let t₃ = write_prev_phys t₂ next block in
    let t₄ = write_size t₃ next (set_prev_free (t₃.sizes next) false) in
    insert_free t₄ next >>= λ t₅. ok (write_prev_phys t₅ (next_phys t₅ next) next)

-- The block behind is told that this one is in use; the payload's address.
unfoldable pub hand_out : (block : ℕ) → Tlsf → Outcome (Option ℕ × Tlsf)
hand_out block t =
    let next = next_phys t block in
    ok (some (block + header_size), write_size t next (set_prev_free (t.sizes next) false))

-- What `alloc` does with the block that it found.
unfoldable pub take_block : (size : ℕ) → Tlsf → Option ℕ → Outcome (Option ℕ × Tlsf)
take_block size t none = ok (none, t)
take_block size t (some block) = remove_free t block >>= λ t₁.
    let remainder = sub64 (block_size t₁ block) size in
    (if leb (header_size + block_min) remainder then split t₁ block size remainder else ok t₁)
    >>= hand_out block

unfoldable pub alloc : Tlsf → (size : ℕ) → Outcome (Option ℕ × Tlsf)
alloc t size = find_free t (rounded size) >>= take_block (rounded size) t
