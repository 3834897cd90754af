-- ===== src/Import.antt =====
-- packages/core/src/import/: the detection of duplicates among imported employees.
pub mod UnionFind
pub mod Forest
pub mod Merging
pub mod Components
pub mod Fuzzy
pub mod Distance
pub mod Evidence
pub mod Collection
pub mod Detector
pub mod Ranges
pub mod Grouping
pub mod Clusters
pub mod Detection
mod Tests
