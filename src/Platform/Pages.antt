-- ===== src/Platform/Pages.antt =====
-- `PageSize` of the module `memory` of src/os_constants.rs. Addresses are `u64`.
use my_kernel.Prelude.{
  ℕ, ◌+◌, ◌-◌, ◌*◌, ◌^◌, Bool, Option, none, some, bit_and, ltb, ◌==◌, if◌then◌else◌,
}

pub data PageSize : Type 0 where
  kib4 kib16 kib64 mib2 gib1 : PageSize

unfoldable pub bytes : PageSize → ℕ
bytes kib4 = 4 * 1024
bytes kib16 = 16 * 1024
bytes kib64 = 64 * 1024
bytes mib2 = 2 * 1024 * 1024
bytes gib1 = 1 * 1024 * 1024 * 1024

unfoldable pub shift : PageSize → ℕ
shift kib4 = 12
shift kib16 = 14
shift kib64 = 16
shift mib2 = 21
shift gib1 = 30

unfoldable pub mask : PageSize → ℕ
unfolding bytes
mask s = bytes s - 1

-- `!x` of a `u64`
abbrev pub not64 : ℕ → ℕ
not64 x = 2 ^ 64 - 1 - x

unfoldable pub is_aligned : PageSize → ℕ → Bool
unfolding mask
is_aligned s addr = bit_and addr (mask s) == 0

unfoldable pub align_down : PageSize → ℕ → ℕ
unfolding mask
align_down s addr = bit_and addr (not64 (mask s))

unfoldable pub checked_add : ℕ → ℕ → Option ℕ
checked_add a b = if ltb (a + b) (2 ^ 64) then some (a + b) else none

unfoldable pub align_up : PageSize → ℕ → Option ℕ
unfolding mask checked_add
align_up s addr = elim (checked_add addr (mask s)) [
  | none ↦ none
  | some a ↦ some (bit_and a (not64 (mask s)))
]

abbrev pub kib : ℕ
kib = 1024

abbrev pub mib : ℕ
mib = 1024 * kib

abbrev pub gib : ℕ
gib = 1024 * mib

abbrev pub tib : ℕ
tib = 1024 * gib
