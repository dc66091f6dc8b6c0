-- ===== src/Report.antt =====
-- scripts/art_bundle.py, scripts/service_bundle.py and scripts/bionic_bundle.py: the checks of reports
-- and of the files that they name before signed code is staged or shipped.
pub mod Value
pub mod Checks
pub mod Service
pub mod Signed
pub mod Owned
pub mod Produced
pub mod Art
pub mod Served
pub mod Passed
pub mod Ran
pub mod Read
pub mod Bounded
pub mod Embedded
pub mod Intact
mod Tests
mod SignedTests
