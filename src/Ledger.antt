-- ===== src/Ledger.antt =====
-- ledger/v1: the versioned key-value store that every controller keeps its state in.
pub mod Iavl
pub mod View
pub mod Revisions
pub mod Ordered
pub mod Mutable
pub mod Mem
pub mod State
pub mod Keys
pub mod Map
pub mod Memory
pub mod Sorted
mod Tests
