-- ===== src/Sources.antt =====
-- scripts/sources.py: the checks between a pinned archive and the files that are written from it.
pub mod Archive
pub mod Aliases
pub mod Plan
pub mod Copies
pub mod Extraction
pub mod Selection
pub mod Selected
pub mod Streamed
pub mod Verified
mod Tests
