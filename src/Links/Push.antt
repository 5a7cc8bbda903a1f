-- ===== src/Links/Push.antt =====
-- Head insertion: `push_front` puts one block in front of a chain and leaves every other block alone.
use my_kernel.Prelude.{ℕ, ◌≤◌, ◌≡◌, ◌≢◌, refl, List, [], ◌∷◌, arith}
use my_kernel.Links.{Links, push_front}
use my_kernel.Links.Chain.{occ, Chain, Chain-frame}

module _ (l : Links) (head node : ℕ) where
  -- A block that is neither the new one nor the old head keeps its pointers.
  pub push_front-other :
      (x : ℕ)
      → x ≢ node
      → x ≢ head
      → ((push_front l head node).prev x ≡ l.prev x) × ((push_front l head node).next x ≡ l.next x)
  unfolding push_front
  push_front-other x ne_node ne_head = ground arith

  push_front-head :
      head ≢ 0
      → head ≢ node
      → ((push_front l head node).prev head ≡ node)
        × ((push_front l head node).next head ≡ l.next head)
  unfolding push_front
  push_front-head nz ne = ground arith

  push_front-node :
      head ≢ node
      → ((push_front l head node).prev node ≡ 0) × ((push_front l head node).next node ≡ head)
  unfolding push_front
  push_front-node ne = ground arith

  -- The list behind the new head.
  push-tail :
      (xs : List ℕ)
      → Chain l 0 head xs
      → occ node xs ≡ 0
      → ((x : ℕ) → occ x xs ≤ 1)
      → Chain (push_front l head node) node head xs
  push-tail [] c out once = c
  push-tail (x ∷ xs) (eq, ne, pr, c) out once =
      let moved = push_front-head (ground arith) (ground arith) in
      let at_x : (push_front l head node).next x ≡ l.next x = rw (← eq) (moved.1) in
      (
        eq,
        ne,
        rw (← eq) (moved.0),
        rw at_x (
            Chain-frame l (push_front l head node) x (l.next x) xs
              (λ y h. push_front-other y (ground arith) (ground (arith, once y))) c),
      )

  pub push_front-Chain :
      (xs : List ℕ)
      → Chain l 0 head xs
      → node ≢ 0
      → head ≢ node
      → occ node xs ≡ 0
      → ((x : ℕ) → occ x xs ≤ 1)
      → Chain (push_front l head node) 0 node (node ∷ xs)
  push_front-Chain xs c nz ne out once =
      let new = push_front-node ne in (refl, nz, new.0, rw new.1 (push-tail xs c out once))
