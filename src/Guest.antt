-- ===== src/Guest.antt =====
-- scripts/icu_guest_link.py, scripts/libcore_guest_link.py and scripts/art_guest_link.py: the checks of
-- the libraries that a guest is linked from, of what they need, import and export.
pub mod Scope
pub mod Reachable
pub mod Closed
pub mod Resolved
pub mod Libcore
mod Tests
