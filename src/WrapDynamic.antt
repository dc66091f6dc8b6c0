-- ===== src/WrapDynamic.antt =====
-- tools/wrap_dynamic.py: a shared ELF of two segments becomes two byte images and their layout.
pub mod Segments
pub mod Layout
pub mod Found
pub mod Loaded
pub mod Macho
pub mod Guest
pub mod Verified
pub mod Wrapped
pub mod Tests
