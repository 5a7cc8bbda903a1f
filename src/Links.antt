-- ===== src/Links.antt =====
-- Intrusive doubly linked lists: `prev` and `next` pointers stored in the listed blocks themselves.
-- The free lists of abalone/src/buddy.rs are such lists, threaded through raw memory. `Links` is
-- that memory, one function for each of the two pointer fields; 0 is the null pointer.
pub mod Chain
pub mod Push
pub mod Unlink
use my_kernel.Prelude.{ℕ, update, if◌then◌else◌, ◌==◌}

pub record Links : Type 0 where
  pub prev : ℕ → ℕ
  pub next : ℕ → ℕ

-- `(*p).prev = v` and `(*p).next = v`
abbrev pub set_prev : Links → ℕ → ℕ → Links
set_prev l p v = record l { prev = update l.prev p v }

abbrev pub set_next : Links → ℕ → ℕ → Links
set_next l p v = record l { next = update l.next p v }

-- The head insertion of `free_block`: `node` goes in front of `head`.
unfoldable pub push_front : Links → ℕ → ℕ → Links
push_front l head node =
    let linked = set_next (set_prev l node 0) node head in
    if head == 0 then linked else set_prev linked head node

-- The memory after `dealloc_pages` has taken `node` out of its list.
unfoldable pub unlink : Links → ℕ → Links
unlink l node =
    let before = l.prev node in
    let after = l.next node in
    let skipped = if before == 0 then l else set_next l before after in
    if after == 0 then skipped else set_prev skipped after before

-- The head of the list after that.
unfoldable pub unlink_head : Links → ℕ → ℕ → ℕ
unlink_head l head node = if l.prev node == 0 then l.next node else head
