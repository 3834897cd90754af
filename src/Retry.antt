-- ===== src/Retry.antt =====
-- Retrying of RPC operations (packages/core/src/core/retry.ts and retry-budget.ts).
pub mod Classify
pub mod Budget
pub mod Attempts
pub mod Ending
pub mod Rounds
pub mod Delays
mod Tests
