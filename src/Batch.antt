-- ===== src/Batch.antt =====
-- The submission of a payroll in batches (packages/core/src/batch and payroll).
pub mod Pages
pub mod Cover
pub mod Submitter
pub mod Attempts
pub mod Runs
pub mod Delivered
mod Tests
