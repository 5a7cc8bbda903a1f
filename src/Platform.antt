-- ===== src/Platform.antt =====
-- The kernel's platform vocabulary, src/os_constants.rs: architectures, page sizes, memory regions,
-- privilege levels and display formats. `current` and `native` are functions of the compiler's `cfg`
-- values, which are a record here.
pub mod Arch
pub mod Pages
pub mod Regions
pub mod Display
mod Laws
mod PageLaws
mod Tests
