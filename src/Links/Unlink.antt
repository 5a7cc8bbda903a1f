-- ===== src/Links/Unlink.antt =====
-- Removal from anywhere in a chain: `unlink` leaves the chain of the other blocks, in order.
use my_kernel.Prelude.{
  ℕ, ◌≤◌, ◌<◌, ◌≡◌, ◌≢◌, inl, inr, List, [], ◌∷◌, arith, ◌==◌, if◌then◌else◌, Bool-cases, ==→eq,
  true, false,
}
use my_kernel.Links.{Links, unlink, unlink_head}
use my_kernel.Links.Chain.{occ, remove, Chain, Chain-frame, next_listed, prev_listed}

module _ (l : Links) (node : ℕ) where
  -- The pointers of each block afterwards.
  prev-unlink :
      (x : ℕ)
      → (unlink l node).prev x ≡ (
          if l.next node == 0 then l.prev x else if x == l.next node then l.prev node else l.prev x)
  unfolding unlink
  prev-unlink x = ground arith

  next-unlink :
      (x : ℕ)
      → (unlink l node).next x ≡ (
          if l.prev node == 0 then l.next x else if x == l.prev node then l.next node else l.next x)
  unfolding unlink
  next-unlink x = ground arith

  -- A block that is no neighbour of the removed one keeps its pointers.
  pub unlink-other :
      (x : ℕ)
      → x ≢ l.next node
      → x ≢ l.prev node
      → ((unlink l node).prev x ≡ l.prev x) × ((unlink l node).next x ≡ l.next x)
  unlink-other x ne_next ne_prev = ground (arith, prev-unlink x, next-unlink x)

  -- The rest behind the removed block, when that block is the first.
  rest_relinked :
      (before : ℕ) (xs : List ℕ)
      → l.prev node ≡ before
      → Chain l node (l.next node) xs
      → ((x : ℕ) → occ x xs ≤ 1)
      → occ before xs ≡ 0
      → Chain (unlink l node) before (l.next node) xs
  rest_relinked before [] at_front c once out = c
  rest_relinked before (y ∷ ys) at_front (eq, ne, pr, c) once out =
      let kept : (unlink l node).next y ≡ l.next y = ground (arith, next-unlink y) in
      (
        eq,
        ne,
        ground (arith, prev-unlink y),
        rw kept (
            Chain-frame l (unlink l node) y (l.next y) ys
              (λ z h. unlink-other z (ground (arith, once z)) (ground arith)) c),
      )

  pub unlink_inside :
      (before head : ℕ) (xs : List ℕ)
      → Chain l before head xs
      → 0 < occ node xs
      → ((x : ℕ) → occ x xs ≤ 1)
      → occ before xs ≡ 0
      → Chain
          (unlink l node)
          before
          (if l.prev node == before then l.next node else head)
          (remove node xs)
  unlink_inside before head [] c here once out = absurd (omega arith)
  unlink_inside before head (x ∷ xs) (eq, ne, pr, c) here once out = elim (Bool-cases (node == x)) [
    | inl same ↦
        let e : node ≡ x = ==→eq node x same in
        let at_front : (l.prev node == before) ≡ true = ground arith in
        rw (same, at_front)
          (rest_relinked before xs (ground arith) (rw e c) (λ y. ground (arith, once y))
            (ground arith))
    | inr other ↦
        let here' : 0 < occ node xs = ground arith in
        let apart : occ x xs ≡ 0 = ground (arith, once x) in
        let inside : (l.prev node == before) ≡ false =
          ground (arith, prev_listed l x (l.next x) xs node c here') in
        let kept : (unlink l node).prev x ≡ before =
          ground (arith, prev-unlink x, next_listed l x (l.next x) xs node c here') in
        let hop : (unlink l node).next x ≡ (if l.prev node == x then l.next node else l.next x) =
          ground (arith, next-unlink x) in
        rw (other, inside)
          (
            eq,
            ne,
            kept,
            rw hop (unlink_inside x (l.next x) xs c here' (λ y. ground (arith, once y)) apart),
          )
  ]

  -- A whole list, and its head.
  pub unlink-Chain :
      (head : ℕ) (xs : List ℕ)
      → Chain l 0 head xs
      → 0 < occ node xs
      → ((x : ℕ) → occ x xs ≤ 1)
      → occ 0 xs ≡ 0
      → Chain (unlink l node) 0 (unlink_head l head node) (remove node xs)
  unfolding unlink_head
  unlink-Chain head xs c here once out = unlink_inside 0 head xs c here once out
