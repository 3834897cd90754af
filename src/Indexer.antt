-- ===== src/Indexer.antt =====
-- packages/core/src/indexer/: the processing of contract events, each once and in order.
pub mod Cursor
pub mod Processor
pub mod Order
pub mod Storages
pub mod Lost
pub mod Contract
pub mod Company
pub mod Index
pub mod Consistency
pub mod References
pub mod Soundness
pub mod Lookups
pub mod Events
pub mod Unread
pub mod Contents
pub mod Complete
mod Tests
mod ContractTests
