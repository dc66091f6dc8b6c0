-- ===== src/Adapt.antt =====
-- scripts/bionic_adapt.py, scripts/bionic_syscalls.py and scripts/art_host_adapt.py: sources adapted
-- before a build, by replacements that each must find their context once.
pub mod Replace
pub mod Unique
pub mod Bionic
pub mod Host
pub mod Native
pub mod Scudo
pub mod Storage
pub mod Syscalls
mod Tests
