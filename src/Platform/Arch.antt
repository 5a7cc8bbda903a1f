-- ===== src/Platform/Arch.antt =====
-- Architectures, byte orders, register widths and privilege levels: the modules `arch` and
-- `cpu_privilege` of src/os_constants.rs.
use Prim.Native.String.{String}
use my_kernel.Prelude.{ℕ, ◌/◌, Bool, true, false, Option, none, some, if◌then◌else◌}

pub data Architecture : Type 0 where
  x86 x86_64 arm arm_hf aarch64 risc_v32 risc_v64 mips mips_el mips64 mips64_el : Architecture
  power_pc power_pc64 power_pc64_le s390x m68k sparc64 loong_arch64 wasm32 wasm64 : Architecture

pub data Endianness : Type 0 where
  little big : Endianness

unfoldable pub triple_prefix : Architecture → String
triple_prefix x86 = "i686"
triple_prefix x86_64 = "x86_64"
triple_prefix arm = "arm"
triple_prefix arm_hf = "armv7"
triple_prefix aarch64 = "aarch64"
triple_prefix risc_v32 = "riscv32"
triple_prefix risc_v64 = "riscv64"
triple_prefix mips = "mips"
triple_prefix mips_el = "mipsel"
triple_prefix mips64 = "mips64"
triple_prefix mips64_el = "mips64el"
triple_prefix power_pc = "powerpc"
triple_prefix power_pc64 = "powerpc64"
triple_prefix power_pc64_le = "powerpc64le"
triple_prefix s390x = "s390x"
triple_prefix m68k = "m68k"
triple_prefix sparc64 = "sparc64"
triple_prefix loong_arch64 = "loongarch64"
triple_prefix wasm32 = "wasm32"
triple_prefix wasm64 = "wasm64"

unfoldable pub pointer_width : Architecture → ℕ
pointer_width x86 = 32
pointer_width arm = 32
pointer_width arm_hf = 32
pointer_width risc_v32 = 32
pointer_width mips = 32
pointer_width mips_el = 32
pointer_width power_pc = 32
pointer_width m68k = 32
pointer_width wasm32 = 32
pointer_width x86_64 = 64
pointer_width aarch64 = 64
pointer_width risc_v64 = 64
pointer_width mips64 = 64
pointer_width mips64_el = 64
pointer_width power_pc64 = 64
pointer_width power_pc64_le = 64
pointer_width s390x = 64
pointer_width sparc64 = 64
pointer_width loong_arch64 = 64
pointer_width wasm64 = 64

unfoldable pub is_bi_endian : Architecture → Bool
is_bi_endian arm = true
is_bi_endian arm_hf = true
is_bi_endian mips = true
is_bi_endian mips_el = true
is_bi_endian mips64 = true
is_bi_endian mips64_el = true
is_bi_endian power_pc = true
is_bi_endian power_pc64 = true
is_bi_endian power_pc64_le = true
is_bi_endian sparc64 = true
is_bi_endian _ = false

unfoldable pub endianness : Architecture → Endianness
endianness mips = big
endianness mips64 = big
endianness power_pc = big
endianness power_pc64 = big
endianness s390x = big
endianness sparc64 = big
endianness m68k = big
endianness _ = little

-- The values of `target_arch` that `current` names, and any other.
pub data TargetArch : Type 0 where
  target_x86 target_x86_64 target_arm target_aarch64 target_riscv32 target_riscv64 : TargetArch
  target_mips target_mips64 target_powerpc target_powerpc64 target_s390x : TargetArch
  target_m68k target_sparc64 target_loongarch64 target_wasm32 target_wasm64 : TargetArch
  target_other : TargetArch

-- The compiler's `cfg` values that the module reads.
pub record Cfg : Type 0 where
  pub target_arch : TargetArch
  pub target_endian : Endianness
  pub vfp2 : Bool

unfoldable pub is_big : Endianness → Bool
is_big big = true
is_big little = false

unfoldable pub is_little : Endianness → Bool
is_little little = true
is_little big = false

-- `Endianness::native`
unfoldable pub native : Cfg → Endianness
native c = c.target_endian

unfoldable pub current_of : TargetArch → Cfg → Option Architecture
unfolding is_big
current_of target_x86 c = some x86
current_of target_x86_64 c = some x86_64
current_of target_arm c = if c.vfp2 then some arm_hf else some arm
current_of target_aarch64 c = some aarch64
current_of target_riscv32 c = some risc_v32
current_of target_riscv64 c = some risc_v64
current_of target_mips c = if is_big c.target_endian then some mips else some mips_el
current_of target_mips64 c = if is_big c.target_endian then some mips64 else some mips64_el
current_of target_powerpc c = some power_pc
current_of target_powerpc64 c =
    if is_big c.target_endian then some power_pc64 else some power_pc64_le
current_of target_s390x c = some s390x
current_of target_m68k c = some m68k
current_of target_sparc64 c = some sparc64
current_of target_loongarch64 c = some loong_arch64
current_of target_wasm32 c = some wasm32
current_of target_wasm64 c = some wasm64
current_of target_other c = none

unfoldable pub current : Cfg → Option Architecture
unfolding current_of
current c = current_of c.target_arch c

pub data RegisterWidth : Type 0 where
  bits8 bits16 bits32 bits64 bits128 : RegisterWidth

unfoldable pub bits : RegisterWidth → ℕ
bits bits8 = 8
bits bits16 = 16
bits bits32 = 32
bits bits64 = 64
bits bits128 = 128

unfoldable pub register_bytes : RegisterWidth → ℕ
unfolding bits
register_bytes w = bits w / 8

pub data CpuPrivilegeLevel : Type 0 where
  kernel hypervisor secure_monitor user : CpuPrivilegeLevel

unfoldable pub x86_ring : CpuPrivilegeLevel → Option ℕ
x86_ring kernel = some 0
x86_ring hypervisor = some 0
x86_ring secure_monitor = none
x86_ring user = some 3

unfoldable pub aarch64_el : CpuPrivilegeLevel → Option ℕ
aarch64_el user = some 0
aarch64_el kernel = some 1
aarch64_el hypervisor = some 2
aarch64_el secure_monitor = some 3

unfoldable pub is_privileged : CpuPrivilegeLevel → Bool
is_privileged user = false
is_privileged _ = true
