-- ===== src/Tlsf/Tests.antt =====
-- Runs of abalone/src/tlsf.rs on a pool of one page, and the theorems at work on it.
use my_kernel.Prelude.{
  ℕ, ◌^◌, ◌≡◌, inr, refl, ◌==◌, if◌then◌else◌, arith, sym, true-ne-false, Option, some,
}
use my_kernel.Prelude.Panic.{Outcome, ok, panic, ◌>>=◌}
use my_kernel.Links.{Links}
use my_kernel.Tlsf.{
  Tlsf, new, mapping, mapping_search, alloc, block_size, is_free, prev_free, rounded, size_bits,
}
use my_kernel.Tlsf.Fit.{searched}
use my_kernel.Tlsf.Pool.{
  no_blocks, new-IsValid, Pooled, pool_lists, with_pool, add_pool-Pooled, only_block,
}
use my_kernel.Tlsf.Alloc.{Allocates, alloc-Allocates}
use my_kernel.Tlsf.Dealloc.{Returnable, Returned, dealloc-Returned}
use my_kernel.Tlsf.Start.{first_alloc}
use my_kernel.Tlsf.Global.{dealloc, add_pool, global_alloc}

abbrev no_links : Links
no_links = record { prev = λ x. 0; next = λ x. 0 }

abbrev empty_tlsf : Tlsf
empty_tlsf = new (λ x. 0) (λ x. 0) no_links

test_mapping : mapping 100 ≡ (6, 18)
unfolding mapping my_kernel.Word.leading_zeros my_kernel.Word.bit_length
test_mapping = refl

test_mapping_search : mapping_search 101 ≡ (6, 19)
unfolding mapping_search mapping my_kernel.Word.leading_zeros my_kernel.Word.bit_length
test_mapping_search = refl

-- The addresses of the payloads that two requests get.
abbrev two_allocs : (Outcome (Option ℕ × Option ℕ))
two_allocs = add_pool empty_tlsf 4096 4096 >>= λ t.
    alloc t 100 >>= λ (a, t₁). alloc t₁ 40 >>= λ (b, t₂). ok (a, b)

test_two_allocs : two_allocs ≡ ok (some 4128, some 4264)
unfolding new mapping mapping_search add_pool alloc my_kernel.Word.leading_zeros
    my_kernel.Word.bit_length my_kernel.Word.low_zeros my_kernel.Tlsf.find_free
    my_kernel.Tlsf.find_above my_kernel.Tlsf.list_head my_kernel.Tlsf.take_block
    my_kernel.Tlsf.remove_free my_kernel.Tlsf.insert_free my_kernel.Tlsf.split
    my_kernel.Tlsf.hand_out my_kernel.Tlsf.rounded my_kernel.Tlsf.size_bits my_kernel.Tlsf.is_free
    my_kernel.Tlsf.prev_free my_kernel.Tlsf.set_size my_kernel.Tlsf.set_free
    my_kernel.Tlsf.set_prev_free my_kernel.Tlsf.clear_bits my_kernel.Links.push_front
    my_kernel.Links.unlink my_kernel.Links.unlink_head
test_two_allocs = refl

-- Three blocks are given back, the middle one first and then the one in front of it. The header of the third still says
-- that the block in front of it begins where the second did; the next two payloads are 96 bytes apart and the first
-- has 150 bytes.
abbrev stale_prev_phys : Outcome (Option ℕ × Option ℕ)
stale_prev_phys = add_pool empty_tlsf 4096 4096 >>= λ t. alloc t 64 >>= λ (a, t₁).
    alloc t₁ 64 >>= λ (b, t₂). alloc t₂ 64 >>= λ (c, t₃). dealloc t₃ 4224 >>= λ t₄.
    dealloc t₄ 4128 >>= λ t₅.
    dealloc t₅ 4320 >>= λ t₆. alloc t₆ 150 >>= λ (d, t₇). alloc t₇ 100 >>= λ (e, t₈). ok (d, e)

test_stale_prev_phys : stale_prev_phys ≡ ok (some 4128, some 4224)
unfolding dealloc my_kernel.Tlsf.Global.merge_prev my_kernel.Tlsf.Global.merge_next
    my_kernel.Tlsf.Global.give_back new mapping mapping_search add_pool alloc
    my_kernel.Word.leading_zeros my_kernel.Word.bit_length my_kernel.Word.low_zeros
    my_kernel.Tlsf.find_free my_kernel.Tlsf.find_above my_kernel.Tlsf.list_head
    my_kernel.Tlsf.take_block my_kernel.Tlsf.remove_free my_kernel.Tlsf.insert_free
    my_kernel.Tlsf.split my_kernel.Tlsf.hand_out my_kernel.Tlsf.rounded my_kernel.Tlsf.size_bits
    my_kernel.Tlsf.is_free my_kernel.Tlsf.prev_free my_kernel.Tlsf.set_size my_kernel.Tlsf.set_free
    my_kernel.Tlsf.set_prev_free my_kernel.Tlsf.clear_bits my_kernel.Links.push_front
    my_kernel.Links.unlink my_kernel.Links.unlink_head
test_stale_prev_phys = refl

-- A request of 1 GiB leaves the table of lists.
test_too_large : alloc empty_tlsf (2 ^ 30) ≡ panic
unfolding new mapping mapping_search add_pool alloc my_kernel.Word.leading_zeros
    my_kernel.Word.bit_length my_kernel.Word.low_zeros my_kernel.Tlsf.find_free
    my_kernel.Tlsf.find_above my_kernel.Tlsf.list_head my_kernel.Tlsf.take_block
    my_kernel.Tlsf.remove_free my_kernel.Tlsf.insert_free my_kernel.Tlsf.split
    my_kernel.Tlsf.hand_out my_kernel.Tlsf.rounded my_kernel.Tlsf.size_bits my_kernel.Tlsf.is_free
    my_kernel.Tlsf.prev_free my_kernel.Tlsf.set_size my_kernel.Tlsf.set_free
    my_kernel.Tlsf.set_prev_free my_kernel.Tlsf.clear_bits my_kernel.Links.push_front
    my_kernel.Links.unlink my_kernel.Links.unlink_head
test_too_large = refl

-- A pool of one page at 4096.
abbrev page_pool : Tlsf
page_pool = with_pool empty_tlsf 4096 4096

page_pool-Pooled :
    (add_pool empty_tlsf 4096 4096 ≡ ok page_pool) × Pooled empty_tlsf no_blocks 4096 4096 page_pool
page_pool-Pooled =
    add_pool-Pooled empty_tlsf no_blocks 4096 4096 (new-IsValid (λ x. 0) (λ x. 0) no_links)
      (λ e. omega (arith, e)) (omega arith) (omega arith) refl
      (λ x l. absurd (omega (arith, l.here)))

alloc-Allocates_example :
    Allocates page_pool (pool_lists no_blocks 4096 4096) 100 (alloc page_pool 100)
alloc-Allocates_example =
    alloc-Allocates page_pool (pool_lists no_blocks 4096 4096) 100 (page_pool-Pooled.1.valid)
      (omega arith)

add_pool-Pooled_example :
    (add_pool empty_tlsf 8192 1024 ≡ ok (with_pool empty_tlsf 8192 1024))
    × Pooled empty_tlsf no_blocks 8192 1024 (with_pool empty_tlsf 8192 1024)
add_pool-Pooled_example =
    add_pool-Pooled empty_tlsf no_blocks 8192 1024 (new-IsValid (λ x. 0) (λ x. 0) no_links)
      (λ e. omega (arith, e)) (omega arith) (omega arith) refl
      (λ x l. absurd (omega (arith, l.here)))

searched_100 : searched (rounded 100) ≡ 105
unfolding rounded my_kernel.Word.top_bit my_kernel.Word.leading_zeros my_kernel.Word.bit_length
searched_100 = refl

first_alloc_example :
    (t' : Tlsf) × ((add_pool empty_tlsf 4096 4096 >>= λ t. alloc t 100) ≡ ok (some 4128, t'))
first_alloc_example =
    first_alloc (λ x. 0) (λ x. 0) no_links 4096 4096 100 (λ e. omega (arith, e)) (omega arith)
      (omega arith) refl (omega arith) (omega (arith, searched_100))

-- A block of 64 bytes in use in front of a pool.
abbrev used_64 : Tlsf
used_64 = new (λ x. if x == 4096 then 64 else 0) (λ x. 0) no_links

abbrev used_pool : Tlsf
used_pool = with_pool used_64 4192 4096

used_pool-Pooled :
    (add_pool used_64 4192 4096 ≡ ok used_pool) × Pooled used_64 no_blocks 4192 4096 used_pool
used_pool-Pooled =
    add_pool-Pooled used_64 no_blocks 4192 4096
      (new-IsValid (λ x. if x == 4096 then 64 else 0) (λ x. 0) no_links) (λ e. omega (arith, e))
      (omega arith) (omega arith) refl (λ x l. absurd (omega (arith, l.here)))

used_pool-Returnable : Returnable used_pool (pool_lists no_blocks 4192 4096) 4096 4096
unfolding new is_free prev_free size_bits
used_pool-Returnable = record {
  loose = record {
    nz = λ e. omega (arith, e);
    large = omega arith;
    lo = omega arith;
    hi = omega arith;
    own = λ x l e. omega (arith, e, only_block _ _ 4192 x l);
    around = λ x l. inr (omega (arith, only_block _ _ 4192 x l));
  };
  inside = λ x l.
      let e = only_block _ _ 4192 x l in
      (omega (arith, e), rw e (omega (arith, used_pool-Pooled.1.payload)));
  addresses = omega arith;
  before = λ free. absurd (true-ne-false (sym free));
  behind = λ free. used_pool-Pooled.1.listed;
}

dealloc-Returned_example :
    (t' : Tlsf) × (dealloc used_pool 4128 ≡ ok t')
    × Returned used_pool (pool_lists no_blocks 4192 4096) 4096 t'
dealloc-Returned_example =
    dealloc-Returned used_pool (pool_lists no_blocks 4192 4096) 4096 4096 (used_pool-Pooled.1.valid)
      used_pool-Returnable
