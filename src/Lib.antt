-- ===== src/Lib.antt =====
-- Verification of the kernel's physical memory allocator, its page tables, its interrupt system and its console.
--
-- The program. The kernel (src/main.rs in the repository) boots under Limine, gives memory to the
-- allocators of the crate abalone, loads the interrupt table of src/interrupts, programs the interrupt
-- controllers and the timer, switches its stack, and prints through the writers of src/writers. The
-- allocators above the buddy allocator take their pages from it. Interrupt handlers count, run the
-- drivers' registered handlers, and acknowledge at the controller; the timer's handler also ticks the
-- clock that sleep_ms reads. The parts interact through global cells behind locks, which only serialise
-- the calls; each part's globals are a record here, and an operation is a function of that record.
--
-- Files.
-- - Prelude: shared names, Boolean tests on native numbers, lists by native index, powers of two, and
--   the outcome of code that may panic.
-- - Bits, Word: what &, |, ^, shifts and masks do to single bits, and 64-bit words: wrapping addition
--   and subtraction, leading and trailing zeros.
-- - Links: doubly linked lists through pointers stored in the blocks themselves, as the buddy
--   allocator keeps its free blocks (push_front and unlink, with chains as their abstract lists).
-- - Buddy: abalone/src/buddy.rs. BuddyAllocator is the struct with its statistics, its lists and its
--   bitmaps, and the memory of the free blocks. new, set_base, add_region, alloc_pages, dealloc_pages
--   and free_block carry the source's names; their loops are add_blocks, find_order, split and
--   coalesce. Buddy/Inv has the invariant, by the pages that the free blocks cover. Buddy/Statistics is
--   about the byte counts over sequences of calls.
-- - Tlsf: abalone/src/tlsf.rs, the small blocks behind Box and Vec. Tlsf is the struct TlsfInner with the memory of the
--   block headers: the fields size and prev_phys by the header's address, and next_free and prev_free as Links. Tlsf.antt
--   has BlockHeader's methods and the functions up to alloc, Global has dealloc, add_pool and GlobalAlloc. Mapping and Fit
--   are about the size classes, Inv has the invariant, Bitmaps the bitmaps, Insert, Remove and Find one function each, Split and Take the parts
--   of alloc, Merge and Join those of dealloc, Pool and Start the beginning.
-- - Heap: src/memory/heap.rs. init over the models of both allocators: the lowest usable address (min_virt), the loop over
--   the regions with the kernel's range left out (give_regions), and the first pool. Regions counts the pages, OffKernel
--   places them, and Init is the whole.
-- - Stack: src/memory/stack.rs, alloc_kernel_stack over the buddy allocator and the page tables; the guard page is one that
--   unmap takes out.
-- - Interrupts: src/interrupts. Machine is the counters, the handlers, the tick count and the trace of
--   what was done outside the kernel's memory; Interrupts.antt itself has stats.rs and dispatch.rs,
--   Pic, Apic, Vectors, Idt the files pic.rs, apic.rs, vectors.rs and exceptions.rs, and Exceptions
--   and Handlers the two halves of handlers.rs.
-- - Paging: the crate mantle. Paging.antt has one table (table.rs), the tables by their physical address
--   with CR3, the frames and the TLB's flushes as a record, and what the crate bitwise packs as a
--   parameter; Walker is walker.rs, Pml4 pml4.rs and Protection prot.rs. Frames is the interface to the allocator of
--   frames. The proofs go by one walk over the levels (Lookup), whose tables form a tree (Tree); Create
--   and Descend are one level of map, Walk all of them, Leaf the last entry, and Map, Unmap and Mmio the
--   operations. Expect has the descent of pml4.rs as the walker's, Place one page below a root, Window
--   and Install the loops over pages, and Boot the installation. Supply has the buddy allocator as the
--   source of frames.
-- - Limine: src/limine_data.rs, the memory map's regions, harvest's copy of the map, and release, which
--   gives the boot loader's memory to the buddy allocator; the rounding of addresses is a parameter (Align, IsAlign).
-- - Timer: src/timer.rs. PostStack: src/post_stack_state.rs.
-- - Vga, Framebuffer: src/writers/vga_buffer.rs and src/writers/framebuffer.rs; the second with its
--   font. Video memory is written only, so the framebuffer is a sequence of writes.
-- - Platform: src/os_constants.rs, the enumerations that have operations.
--
-- Bounds and fuel. The classes of Tlsf end at 1 GiB, and alloc is proved up to 2^30 - 2^24, from where its search may
-- leave the table. The loop of add_region has as much fuel as pages, and frees at least one page per
-- round; the loops of alloc_pages and dealloc_pages count levels of the seventeen orders. The index
-- space of the buddy allocator has 2^17 pages, and the base must leave room for it below 2^64. The wait
-- of sleep_ms is on fuel, and the clock on which it depends is a parameter, a sequence of reads. Words
-- wrap as the source's types do; an access past an array and a failed assert is a panic. The byte
-- counts of the buddy allocator are also taken modulo 2^64, where a build with overflow checks panics
-- instead: that makes a difference only if more bytes are allocated than are counted as free, or more
-- freed than are counted as used, which Buddy/Statistics is about. Its counts of calls wrap after 2^64
-- calls.
--
-- Third-party code. The crates x86_64, pic8259, pc_keyboard and spin are not modelled: a read of a
-- hardware port is answered by a device that is a parameter, a function of the trace, and what the
-- mask registers promise is the record IsImr; the slots of the interrupt table have the vectors of a
-- parameter, and IsIntel says that these are the processor's. A registered handler is an event.
-- The crate bitwise, which packs page-table entries, is the record Paging, and IsX86 what the processor's
-- manual says of its functions: the indices of an address, the flags' bits, and that an entry gives back
-- the frame and the flags that it was made of. The window at hhdm through which tables are read only
-- shifts addresses, so that tables are found by their physical address.
--
-- Not modelled: the slab allocator of abalone, the rest of harvest in
-- src/limine_data.rs and src/main.rs with its assembly; the switch of
-- stacks, which is assembly; the serial port, which only passes bytes on; stale copies of source files that no module declares; and
-- the kernel's own tests.
mod Prelude
pub mod Bits
pub mod Buddy
pub mod Framebuffer
pub mod Heap
pub mod Interrupts
pub mod Limine
pub mod Links
pub mod Paging
pub mod Platform
pub mod PostStack
pub mod Stack
pub mod Timer
pub mod Tlsf
pub mod Vga
pub mod Word
