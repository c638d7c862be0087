-- ===== src/Tests.antt =====
-- Runs of the services at concrete inputs: sample values, and the theorems at them.
pub mod Samples
pub mod Storing
pub mod Processing
pub mod Working
pub mod Submitting
pub mod Starting
pub mod Admitting
pub mod Together
