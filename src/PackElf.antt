-- ===== src/PackElf.antt =====
-- tools/pack_elf.py: an ARM64 ELF image is checked and turned into build inputs.
pub mod Numbers
pub mod Branch
pub mod Uleb
pub mod Inspect
pub mod Sections
pub mod Relocations
pub mod Parse
pub mod Macho
pub mod Pipeline
mod Tests
pub mod Veneer
pub mod Transform
