-- ===== src/Tlsf/Start.antt =====
-- The start of the allocator in abalone/src/tlsf.rs: `new`, then one pool, then the first request.
use my_kernel.Prelude.{ℕ, ◌+◌, ◌-◌, ◌^◌, ◌%◌, ◌≤◌, ◌<◌, ◌≡◌, ◌≢◌, inl, inr, ap, ◌∙◌, arith, some}
use my_kernel.Prelude.Panic.{ok, ◌>>=◌}
use my_kernel.Links.{Links}
use my_kernel.Tlsf.{Tlsf, new, header_size, alloc, rounded}
use my_kernel.Tlsf.Global.{add_pool}
use my_kernel.Tlsf.Fit.{searched}
use my_kernel.Tlsf.Pool.{no_blocks, new-IsValid, add_pool-Pooled, with_pool, only_block}
use my_kernel.Tlsf.Take.{largest}
use my_kernel.Tlsf.Alloc.{alloc-Allocates}

-- After `new` and `add_pool` of a region that is not at address 0, of whole words, of more than 96 bytes and with a
-- block below 1 GiB, the first request of at most 2^30 - 2^24 bytes is served from the region's start, if its rounded
-- size, rounded up again as the search does, is at most the block's, which is 64 bytes less than the region's.
pub first_alloc :
    (sizes prev_phys : ℕ → ℕ) (links : Links) (mem size n : ℕ)
    → mem ≢ 0
    → 96 < size
    → size - 64 < 2 ^ 30
    → size % 4 ≡ 0
    → n ≤ largest
    → searched (rounded n) ≤ size - 64
    → (t' : Tlsf) × ((add_pool (new sizes prev_phys links) mem size >>= λ t. alloc t n)
        ≡ ok (some (mem + header_size), t'))
first_alloc sizes prev_phys links mem size n nz large fits words small room =
    let t = new sizes prev_phys links in
    let (adds, pooled) =
      add_pool-Pooled t no_blocks mem size (new-IsValid sizes prev_phys links) nz large fits words
        (λ x l. absurd (omega (arith, l.here))) in
    elim (alloc-Allocates (with_pool t mem size) _ n pooled.valid small) [
      | inl (e, all_small) ↦
          absurd (omega (arith, all_small mem pooled.listed, pooled.payload, room))
      | inr (block, t', e, handed) ↦ (
        t',
        rw adds (
            e
            ∙ ap (λ b. ok (some (b + header_size), t')) (only_block _ _ mem block handed.was_free)),
      )
    ]
