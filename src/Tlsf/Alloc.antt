-- ===== src/Tlsf/Alloc.antt =====
-- `alloc` of abalone/src/tlsf.rs as a whole: the search and what is done with the block that it found.
use my_kernel.Prelude.{
  ℕ, ◌+◌, ◌^◌, ◌≤◌, ◌<◌, ◌≡◌, ◌⊎◌, inl, inr, refl, ap, arith, ltb, Bool-cases, Option, none, some,
}
use my_kernel.Prelude.Panic.{Outcome, ok}
use my_kernel.Tlsf.{Tlsf, header_size, block_size, rounded, take_block, alloc}
use my_kernel.Tlsf.Fit.{searched, searched_fl, searched_sl, searched_class, class-monotone}
use my_kernel.Links.Chain.{occ}
use my_kernel.Tlsf.Inv.{Lists, IsListed, InLists, IsValid}
use my_kernel.Tlsf.Find.{NoneFrom, find_free-Finds}
use my_kernel.Tlsf.Take.{largest, rounded_bounds, searched_lt, Handed, takes}

-- No free block has the size up to which the search rounds.
abbrev pub AllSmall : Tlsf → Lists → (size : ℕ) → Type 0
AllSmall t F size = (x : ℕ) → InLists F x → block_size t x < searched size

NoneFrom-AllSmall :
    {t : Tlsf} {F : Lists} (v : IsListed t F) (size : ℕ)
    → 32 ≤ size
    → searched size < 2 ^ 64
    → NoneFrom F (searched_fl size) (searched_sl size)
    → AllSmall t F size
NoneFrom-AllSmall {t = t} {F = F} v size lo hi none_from x l =
    elim (Bool-cases (ltb (block_size t x) (searched size))) [
      | inl less ↦ ground (arith, less)
      | inr more ↦
          let c = (v.classes l.fl l.sl x l.fl_lt l.sl_lt l.here).0 in
          let above = class-monotone (searched_class size lo hi) c (ground (arith, more)) in
          let empty = none_from l.fl l.sl l.fl_lt l.sl_lt above in
          absurd (omega (arith, l.here, ap (occ x) empty))
    ]

-- What `alloc` returns.
abbrev pub Allocates : Tlsf → Lists → (n : ℕ) → Outcome (Option ℕ × Tlsf) → Type 0
Allocates t F n o =
    ((o ≡ ok (none, t)) × AllSmall t F (rounded n))
    ⊎ ((block : ℕ) × (t' : Tlsf) × (o ≡ ok (some (block + header_size), t'))
        × Handed t F n block t')

-- On valid free lists and for at most 2^30 - 2^24 bytes, `alloc` does not panic. Either every free block is smaller than
-- what the search rounds up to, and nothing changes; or a free block of enough bytes is handed out and marked in use,
-- and the free lists stay valid: they have every other block from before with its size, the rest of the block if it was
-- cut, which fills it up exactly, and nothing else.
pub alloc-Allocates :
    (t : Tlsf) (F : Lists) (n : ℕ) → IsValid t F → n ≤ largest → Allocates t F n (alloc t n)
unfolding alloc take_block
alloc-Allocates t F n v small =
    let (le, lo, hi, words) = rounded_bounds n small in
    elim (find_free-Finds v.listed (rounded n) lo (searched_lt (rounded n) lo hi)) [
      | inl (e, none_from) ↦ inl (
        rw e refl,
        NoneFrom-AllSmall v.listed (rounded n) lo (omega (arith, searched_lt (rounded n) lo hi))
            none_from,
      )
      | inr (block, e, first) ↦
          let (t', taken, handed) = takes v n small block first in
          inr (block, t', rw e taken, handed)
    ]
