-- ===== src/Acceptance.antt =====
-- scripts/m2_acceptance.py: the score of fixed expectations against observed results.
pub mod Score
pub mod Totals
mod Tests
