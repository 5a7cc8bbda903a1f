-- ===== src/Links/Chain.antt =====
-- A chain: from `head` the `next` pointers lead through the addresses `xs` to null, and each block's
-- `prev` pointer is the block before it.
use my_kernel.Prelude.{
  ℕ, suc, ◌+◌, ◌≤◌, ◌<◌, ◌≡◌, refl, ◌∙◌, ◌≢◌, ◌⊎◌, inl, inr, List, [], ◌∷◌, arith, ◌==◌,
  if◌then◌else◌,
}
use my_kernel.Links.{Links}

-- How often `x` stands in the list.
abbrev pub occ : ℕ → List ℕ → ℕ
occ x [] = 0
occ x (y ∷ ys) = (if x == y then 1 else 0) + occ x ys

-- The list without the first `x`.
abbrev pub remove : ℕ → List ℕ → List ℕ
remove x [] = []
remove x (y ∷ ys) = if x == y then ys else y ∷ remove x ys

abbrev pub Chain : Links → (before head : ℕ) → List ℕ → Type 0
Chain l before head [] = head ≡ 0
Chain l before head (x ∷ xs) = (head ≡ x) × (x ≢ 0) × (l.prev x ≡ before) × Chain l x (l.next x) xs

pub occ_self : (x : ℕ) (xs : List ℕ) → 0 < occ x (x ∷ xs)
occ_self x xs = ground arith

pub occ-remove : (x y : ℕ) (xs : List ℕ) → occ x (remove y xs) ≤ occ x xs
occ-remove x y [] = omega arith
occ-remove x y (z ∷ zs) = ground (arith, occ-remove x y zs)

pub occ-remove_self : (x : ℕ) (xs : List ℕ) → 0 < occ x xs → suc (occ x (remove x xs)) ≡ occ x xs
occ-remove_self x [] h = absurd (omega arith)
occ-remove_self x (y ∷ ys) h = ground (arith, occ-remove_self x ys)

pub occ-remove_other : (x y : ℕ) (xs : List ℕ) → x ≢ y → occ x (remove y xs) ≡ occ x xs
occ-remove_other x y [] ne = refl
occ-remove_other x y (z ∷ zs) ne = ground (arith, occ-remove_other x y zs ne)

-- A chain survives any change that spares its blocks.
pub Chain-frame :
    (l m : Links) (before head : ℕ) (xs : List ℕ)
    → ((x : ℕ) → 0 < occ x xs → (m.prev x ≡ l.prev x) × (m.next x ≡ l.next x))
    → Chain l before head xs
    → Chain m before head xs
Chain-frame l m before head [] same c = c
Chain-frame l m before head (x ∷ xs) same (eq, ne, pr, c) =
    let s : (m.prev x ≡ l.prev x) × (m.next x ≡ l.next x) = same x (ground arith) in
    (eq, ne, s.0 ∙ pr, rw s.1 (Chain-frame l m x (l.next x) xs (λ y h. same y (ground arith)) c))

-- The head is null or listed.
pub head_listed :
    (l : Links) (before head : ℕ) (xs : List ℕ)
    → Chain l before head xs
    → (head ≡ 0) ⊎ (0 < occ head xs)
head_listed l before head [] c = inl c
head_listed l before head (x ∷ xs) c = inr (ground arith)

-- No listed block is null.
pub listed-ne-null :
    (l : Links) (before head : ℕ) (xs : List ℕ) (y : ℕ)
    → Chain l before head xs
    → 0 < occ y xs
    → y ≢ 0
listed-ne-null l before head [] y c h = absurd (omega arith)
listed-ne-null l before head (x ∷ xs) y (eq, ne, pr, c) h =
    ground (arith, listed-ne-null l x (l.next x) xs y c)

-- A listed block's neighbours are listed, null, or the block before the chain.
pub next_listed :
    (l : Links) (before head : ℕ) (xs : List ℕ) (y : ℕ)
    → Chain l before head xs
    → 0 < occ y xs
    → (l.next y ≡ 0) ⊎ (0 < occ (l.next y) xs)
next_listed l before head [] y c h = absurd (omega arith)
next_listed l before head (x ∷ xs) y (eq, ne, pr, c) h =
    ground (arith, head_listed l x (l.next x) xs c, next_listed l x (l.next x) xs y c)

pub prev_listed :
    (l : Links) (before head : ℕ) (xs : List ℕ) (y : ℕ)
    → Chain l before head xs
    → 0 < occ y xs
    → (l.prev y ≡ before) ⊎ (0 < occ (l.prev y) xs)
prev_listed l before head [] y c h = absurd (omega arith)
prev_listed l before head (x ∷ xs) y (eq, ne, pr, c) h =
    ground (arith, prev_listed l x (l.next x) xs y c)
